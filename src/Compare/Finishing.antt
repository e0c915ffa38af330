-- ===== src/Compare/Finishing.antt =====
-- The two enumerations that a comparison waits for (compare/DirectoryComparer.cpp).
use zephyrftp.Base.{◌≡◌, refl, Bool, true, false, List, [], ◌∷◌, ◌++◌, arith, if◌then◌else◌}
use zephyrftp.Base.Text.{Text, codes}
use zephyrftp.Backends.Entry.{EnumeratedItem}
use zephyrftp.Compare.Comparer.{
  DirectoryComparer, compared, failed, classify, new_comparer, maybe_classify, on_left_finished,
  on_right_finished, on_left_failed, on_right_failed,
}

-- A comparison reports once both sides are listed, whichever is first, the left listing against the
-- right one.
pub comparer_finishes_in_either_order :
    (left_items right_items : List EnumeratedItem)
    → ((on_right_finished right_items (on_left_finished left_items new_comparer)).outcomes
        ≡ compared (classify left_items right_items) ∷ [])
      × ((on_left_finished left_items (on_right_finished right_items new_comparer)).outcomes
          ≡ compared (classify left_items right_items) ∷ [])
      × ((on_left_finished left_items new_comparer).outcomes ≡ [])
      × ((on_right_finished right_items new_comparer).outcomes ≡ [])
unfolding on_left_finished on_right_finished maybe_classify new_comparer
comparer_finishes_in_either_order left_items right_items = (refl, refl, refl, refl)

-- what a comparison ignores once it has failed
abbrev pub IgnoresAll : List EnumeratedItem → Text → DirectoryComparer → Type 0
IgnoresAll items reason s =
    (on_left_finished items s ≡ s)
    × (on_right_finished items s ≡ s)
    × (on_left_failed reason s ≡ s)
    × (on_right_failed reason s ≡ s)

if-true {ℓ} : {A : Type ℓ} (b : Bool) (x y : A) → b ≡ true → (if b then x else y) ≡ x
if-true true x y h = refl
if-true false x y h = absurd (ground arith)

failed-IgnoresAll :
    (items : List EnumeratedItem) (reason : Text) (s : DirectoryComparer)
    → s.has_failed ≡ true
    → IgnoresAll items reason s
unfolding on_left_finished on_right_finished on_left_failed on_right_failed
failed-IgnoresAll items reason s h = (
  if-true s.has_failed s (maybe_classify (record s { left_items = items; left_done = true })) h,
  if-true s.has_failed s (maybe_classify (record s { right_items = items; right_done = true })) h,
  if-true s.has_failed s
      (record s { has_failed = true; outcomes = failed (codes "Left: " ++ reason) ∷ s.outcomes }) h,
  if-true s.has_failed s
      (record s { has_failed = true; outcomes = failed (codes "Right: " ++ reason) ∷ s.outcomes })
      h,
)

has_failed_left :
    (reason : Text) (s : DirectoryComparer) → (on_left_failed reason s).has_failed ≡ true
unfolding on_left_failed
has_failed_left reason s = ground arith

has_failed_right :
    (reason : Text) (s : DirectoryComparer) → (on_right_failed reason s).has_failed ≡ true
unfolding on_right_failed
has_failed_right reason s = ground arith

-- After a failure of either side nothing more is reported, whatever comes.
pub comparer_fails_once :
    (items : List EnumeratedItem) (reason later : Text) (s : DirectoryComparer)
    → IgnoresAll items later (on_left_failed reason s)
      × IgnoresAll items later (on_right_failed reason s)
comparer_fails_once items reason later s = (
  failed-IgnoresAll items later (on_left_failed reason s) (has_failed_left reason s),
  failed-IgnoresAll items later (on_right_failed reason s) (has_failed_right reason s),
)
