-- ===== src/Api/Appends.antt =====
-- The lists of sections and of keys in memory, behind an addition and when a file is read.
use ini.Api.Sections.{append_section}
use ini.Api.Values.{append_keyval}
use ini.Base.{All, List, [], arith, none, ℕ, ◌++◌, ◌∷◌, ◌≡◌, ◌≢◌}
use ini.Load.{link_keyval, link_section}
use ini.Memory.{World, final}
use ini.Store.{keyval_links, section_links}
use ini.Store.Chain.{All-final, IsChain-append, Unique}
use ini.Store.Find.{IsChain}

link_keyval-IsChain :
    (s : ℕ) (xs : List ℕ) (i : ℕ) (w : World)
    → IsChain (keyval_links w) (w.sections s).head xs
    → Unique xs
    → All (λ j. i ≢ j) xs
    → (w.keyvals i).last ≡ none
    → IsChain
        (keyval_links (link_keyval s xs i w))
        ((link_keyval s xs i w).sections s).head
        (xs ++ (i ∷ []))
unfolding link_keyval
link_keyval-IsChain s [] i w c u n l = (ground arith, l)
link_keyval-IsChain s (x ∷ xs) i w c u n l =
    let ne : i ≢ final x xs = All-final (λ j. i ≢ j) x xs n in
    IsChain-append (keyval_links w) (keyval_links (link_keyval s (x ∷ xs) i w)) (w.sections s).head
      x xs i c u n
      (record { at_end = ground arith; at_new = ground arith; elsewhere = λ j d e. ground arith })

append_keyval-IsChain :
    (s : ℕ) (xs : List ℕ) (i : ℕ) (w : World)
    → IsChain (keyval_links w) (w.sections s).head xs
    → Unique xs
    → All (λ j. i ≢ j) xs
    → (w.keyvals i).last ≡ none
    → IsChain
        (keyval_links (append_keyval s xs i w))
        ((append_keyval s xs i w).sections s).head
        (xs ++ (i ∷ []))
unfolding append_keyval
append_keyval-IsChain s [] i w c u n l = (ground arith, l)
append_keyval-IsChain s (x ∷ xs) i w c u n l =
    let ne : i ≢ final x xs = All-final (λ j. i ≢ j) x xs n in
    IsChain-append (keyval_links w) (keyval_links (append_keyval s (x ∷ xs) i w))
      (w.sections s).head x xs i c u n
      (record { at_end = ground arith; at_new = ground arith; elsewhere = λ j d e. ground arith })

link_section-IsChain :
    (fd : ℕ) (xs : List ℕ) (i : ℕ) (w : World)
    → IsChain (section_links w) (w.files fd).head xs
    → Unique xs
    → All (λ j. i ≢ j) xs
    → (w.sections i).last ≡ none
    → IsChain
        (section_links (link_section fd xs i w))
        ((link_section fd xs i w).files fd).head
        (xs ++ (i ∷ []))
unfolding link_section
link_section-IsChain fd [] i w c u n l = (ground arith, l)
link_section-IsChain fd (x ∷ xs) i w c u n l =
    let ne : i ≢ final x xs = All-final (λ j. i ≢ j) x xs n in
    IsChain-append (section_links w) (section_links (link_section fd (x ∷ xs) i w))
      (w.files fd).head x xs i c u n
      (record { at_end = ground arith; at_new = ground arith; elsewhere = λ j d e. ground arith })

append_section-IsChain :
    (fd : ℕ) (xs : List ℕ) (i : ℕ) (w : World)
    → IsChain (section_links w) (w.files fd).head xs
    → Unique xs
    → All (λ j. i ≢ j) xs
    → (w.sections i).last ≡ none
    → IsChain
        (section_links (append_section fd xs i w))
        ((append_section fd xs i w).files fd).head
        (xs ++ (i ∷ []))
unfolding append_section
append_section-IsChain fd [] i w c u n l = (ground arith, l)
append_section-IsChain fd (x ∷ xs) i w c u n l =
    let ne : i ≢ final x xs = All-final (λ j. i ≢ j) x xs n in
    IsChain-append (section_links w) (section_links (append_section fd (x ∷ xs) i w))
      (w.files fd).head x xs i c u n
      (record { at_end = ground arith; at_new = ground arith; elsewhere = λ j d e. ground arith })

-- Where no node stands twice in a list, and the new node is not in it and leads nowhere, the list
-- of keys of a section, and the list of sections of a file, becomes the one before with the new
-- node behind it: on reading a file, and on an addition.
pub appends-IsChain :
    (s fd i : ℕ) (xs ys : List ℕ) (w : World)
    → IsChain (keyval_links w) (w.sections s).head xs
    → Unique xs
    → All (λ j. i ≢ j) xs
    → (w.keyvals i).last ≡ none
    → IsChain (section_links w) (w.files fd).head ys
    → Unique ys
    → All (λ j. i ≢ j) ys
    → (w.sections i).last ≡ none
    → IsChain
        (keyval_links (link_keyval s xs i w))
        ((link_keyval s xs i w).sections s).head
        (xs ++ (i ∷ []))
      × IsChain
          (keyval_links (append_keyval s xs i w))
          ((append_keyval s xs i w).sections s).head
          (xs ++ (i ∷ []))
      × IsChain
          (section_links (link_section fd ys i w))
          ((link_section fd ys i w).files fd).head
          (ys ++ (i ∷ []))
      × IsChain
          (section_links (append_section fd ys i w))
          ((append_section fd ys i w).files fd).head
          (ys ++ (i ∷ []))
appends-IsChain s fd i xs ys w c u n l c' u' n' l' = (
  link_keyval-IsChain s xs i w c u n l,
  append_keyval-IsChain s xs i w c u n l,
  link_section-IsChain fd ys i w c' u' n' l',
  append_section-IsChain fd ys i w c' u' n' l',
)
