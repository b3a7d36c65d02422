-- ===== src/Web/ProfileForm/Links.antt =====
-- The links of a profile, to the lines of the form and back.
use corrupt_cv.Common.{
  ℕ, ◌≡◌, ◌≢◌, refl, ap, ◌∙◌, false, List, [], ◌∷◌, ◌++◌, map, none, some, arith, Text, All,
  All-append, is_empty, inl, inr, Bool-cases,
}
use corrupt_cv.Strings.{Lacks, split, join, is_space, trim_left, trim_right, trim_space, cut_last}
use corrupt_cv.Strings.Laws.{split-append_sep, split_of_Lacks}
use corrupt_cv.Web.ProfileForm.{WebLink, blank_or_tab, link_line, parse_lines, parse_links}

-- A text that neither begins nor ends with white space.
abbrev pub NoEdge : Text → Type 0
NoEdge [] = ⊥
NoEdge (c ∷ s) = (is_space c ≡ false) × (trim_right (c ∷ s) ≡ c ∷ s)

-- A label on one line without white space around it, and a URL without any white space.
pub record IsTidy (l : WebLink) : Type 0 where
  pub label : NoEdge l.label
  pub one_line : Lacks 10 l.label
  pub url : l.url ≢ []
  pub solid : All (λ c. is_space c ≡ false) l.url

trim_right-solid : (s : Text) → All (λ c. is_space c ≡ false) s → trim_right s ≡ s
unfolding trim_right
trim_right-solid [] _ = refl
trim_right-solid (c ∷ s) (solid, h) = rw (solid, trim_right-solid s h) refl

trim_right-append : (s t : Text) → t ≢ [] → trim_right t ≡ t → trim_right (s ++ t) ≡ s ++ t
unfolding trim_right
trim_right-append [] t filled h = h
trim_right-append (c ∷ s) t filled h =
    let full : is_empty (s ++ t) ≡ false = nonempty s in
    rw (trim_right-append s t filled h)
      (rw full (elim (Bool-cases (is_space c)) [ inl e ↦ rw e refl | inr e ↦ rw e refl ]))
  where
    nonempty : (s : Text) → is_empty (s ++ t) ≡ false
    nonempty [] = ground arith
    nonempty (c ∷ s) = refl

trim_space-NoEdge : (s : Text) → NoEdge s → trim_space s ≡ s
unfolding trim_space trim_left
trim_space-NoEdge [] h = absurd h
trim_space-NoEdge (c ∷ s) (solid, right) = rw solid right

trim_space-solid : (s : Text) → All (λ c. is_space c ≡ false) s → trim_space s ≡ s
unfolding trim_space trim_left
trim_space-solid [] _ = unfold trim_right in refl
trim_space-solid (c ∷ s) (solid, h) = rw solid (trim_right-solid (c ∷ s) (solid, h))

solid-blank_or_tab : (c : ℕ) → is_space c ≡ false → blank_or_tab c ≡ false
unfolding is_space
solid-blank_or_tab c h = ground arith

solid-newline : (c : ℕ) → is_space c ≡ false → c ≢ 10
unfolding is_space
solid-newline c h = ground arith

cut_last-solid : (s : Text) → All (λ c. is_space c ≡ false) s → cut_last blank_or_tab s ≡ none
unfolding cut_last
cut_last-solid [] _ = refl
cut_last-solid (c ∷ s) (solid, h) = rw (cut_last-solid s h) (rw (solid-blank_or_tab c solid) refl)

cut_last-append :
    (s t : Text)
    → All (λ c. is_space c ≡ false) t
    → cut_last blank_or_tab (s ++ 32 ∷ t) ≡ some (s, t)
unfolding cut_last
cut_last-append [] t h = rw (cut_last-solid t h) refl
cut_last-append (c ∷ s) t h = rw (cut_last-append s t h) refl

solid-Lacks : (s : Text) → All (λ c. is_space c ≡ false) s → Lacks 10 s
solid-Lacks [] _ = tt
solid-Lacks (c ∷ s) (solid, h) = (solid-newline c solid, solid-Lacks s h)

link_line-Lacks : (l : WebLink) → IsTidy l → Lacks 10 (link_line l)
link_line-Lacks l h =
    All-append (λ c. c ≢ 10) l.label (32 ∷ l.url) h.one_line
      (omega arith, solid-Lacks l.url h.solid)

link_line-NoEdge : (l : WebLink) → IsTidy l → NoEdge (link_line l)
link_line-NoEdge l h = go l.label h.label
  where
    right : (s : Text) → trim_right (s ++ 32 ∷ l.url) ≡ s ++ 32 ∷ l.url
    right s =
        trim_right-append s (32 ∷ l.url) (ground arith)
          (trim_right-append (32 ∷ []) l.url h.url (trim_right-solid l.url h.solid))

    go : (s : Text) → NoEdge s → NoEdge (s ++ 32 ∷ l.url)
    go [] e = absurd e
    go (c ∷ s) (solid, e) = (solid, right (c ∷ s))

-- One line gives back its link.
parse_lines-link_line :
    (l : WebLink) (lines : List Text)
    → IsTidy l
    → parse_lines (link_line l ∷ lines) ≡ l ∷ parse_lines lines
unfolding parse_lines
parse_lines-link_line l lines h =
    let whole = trim_space-NoEdge (link_line l) (link_line-NoEdge l h) in
    let full : is_empty (link_line l) ≡ false = nonempty l.label in
    let parts = cut_last-append l.label l.url h.solid in
    rw whole (
      rw (full, parts)
        (ap (λ x. x ∷ parse_lines lines)
          (λ i. record {
            label = trim_space-NoEdge l.label h.label i;
            url = trim_space-solid l.url h.solid i;
          })))
  where
    nonempty : (s : Text) → is_empty (s ++ 32 ∷ l.url) ≡ false
    nonempty [] = refl
    nonempty (c ∷ s) = refl

-- The lines of the form for tidy links are parsed to those links.
pub parse_links-join :
    (links : List WebLink) → All IsTidy links → parse_links (join 10 (map link_line links)) ≡ links
unfolding parse_links join
parse_links-join [] _ = unfold split parse_lines trim_space trim_left trim_right in refl
parse_links-join (l ∷ []) (h, _) =
    rw (split_of_Lacks 10 (link_line l) (link_line-Lacks l h))
      (parse_lines-link_line l [] h ∙ unfold parse_lines in refl)
parse_links-join (l ∷ m ∷ links) (h, later) =
    let rest = join 10 (map link_line (m ∷ links)) in
    ap parse_lines (split-append_sep 10 (link_line l) rest (link_line-Lacks l h))
    ∙ parse_lines-link_line l (split 10 rest) h
    ∙ ap (λ ls. l ∷ ls) (parse_links-join (m ∷ links) later)
