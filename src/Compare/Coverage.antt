-- ===== src/Compare/Coverage.antt =====
-- What a comparison reports (DirectoryComparer::classify of compare/DirectoryComparer.cpp).
use zephyrftp.Base.{
  ℕ, ◌+◌, ◌≤◌, ◌≡◌, refl, ap, ◌∙◌, Bool, true, false, ◌||◌, List, [], ◌∷◌, ◌++◌, map, some, inl,
  inr, arith, Bool-cases, Option-cases, ltb, ◌==◌, ◌&&◌, if◌then◌else◌, All, All-map, All-append,
  if-elim,
}
use zephyrftp.Base.Text.{Text, text_eq, text_eq_iff, text_eq_refl}
use zephyrftp.Backends.Entry.{EnumeratedItem}
use zephyrftp.Compare.Comparer.{
  CompareEntry, normalized, find_path, has_path, add_unseen, ordered_paths, compare_entry,
  compare_paths, classify,
}

abbrev pub one_if : Bool → ℕ
one_if b = if b then 1 else 0

-- how often a path stands in a list
unfoldable pub count_path : Text → List Text → ℕ
count_path path [] = 0
count_path path (p ∷ paths) = one_if (text_eq p path) + count_path path paths

-- whether a path is that of an item
unfoldable pub is_path_of : Text → List EnumeratedItem → Bool
is_path_of path [] = false
is_path_of path (item ∷ items) = text_eq item.relative_path path || is_path_of path items

count_path-append :
    (path last : Text) (paths : List Text)
    → count_path path (paths ++ last ∷ []) ≡ count_path path paths + one_if (text_eq last path)
unfolding count_path
count_path-append path last [] = omega arith
count_path-append path last (p ∷ paths) = omega (arith, count_path-append path last paths)

has_path-count_path :
    (path : Text) (paths : List Text) → has_path path paths ≡ ltb 0 (count_path path paths)
unfolding count_path
has_path-count_path path [] = refl
has_path-count_path path (p ∷ paths) = ground (arith, has_path-count_path path paths)

-- One item more: its path stands in the list once, as does what stood there before.
count_path-one :
    (path last : Text) (seen : List Text)
    → count_path path (if has_path last seen then seen else seen ++ last ∷ [])
      ≡ (if text_eq last path && (count_path path seen == 0) then 1 else count_path path seen)
count_path-one path last seen = ground (
  arith,
  count_path-append path last seen,
  has_path-count_path last seen,
  text_eq_iff last path,
  λ (e : last ≡ path). ap (λ (t : Text). count_path t seen) e,
)

count_path-add_unseen :
    (path : Text) (items : List EnumeratedItem) (seen : List Text)
    → count_path path seen ≤ 1
    → count_path path (add_unseen seen items)
      ≡ one_if (ltb 0 (count_path path seen) || is_path_of path items)
unfolding add_unseen is_path_of
count_path-add_unseen path [] seen h = ground arith
count_path-add_unseen path (item ∷ items) seen h =
    let next = if has_path item.relative_path seen then seen else seen ++ item.relative_path ∷ [] in
    let c = count_path-one path item.relative_path seen in
    ground (arith, c, count_path-add_unseen path items next (ground (arith, c)))

own_paths :
    (items : List EnumeratedItem) → All (λ item. is_path_of item.relative_path items ≡ true) items
unfolding is_path_of
own_paths [] = tt
own_paths (item ∷ items) = (
  ground (arith, text_eq_refl item.relative_path),
  All-map _ _ items (λ x h. ground (arith, h)) (own_paths items),
)

All-add_unseen {κ} :
    (P : Text → Type κ) (items : List EnumeratedItem) (seen : List Text)
    → All P seen
    → All (λ item. P item.relative_path) items
    → All P (add_unseen seen items)
unfolding add_unseen
All-add_unseen P [] seen h k = h
All-add_unseen P (item ∷ items) seen h k =
    All-add_unseen P items
      (if has_path item.relative_path seen then seen else seen ++ item.relative_path ∷ [])
      (if-elim (All P) _ _ _ (λ _. h)
        (λ _. All-append P seen (item.relative_path ∷ []) h (k.0, tt)))
      k.1

-- whether a path is on either side
abbrev pub is_on_either : Text → List EnumeratedItem → List EnumeratedItem → Bool
is_on_either path left right = is_path_of path left || is_path_of path right

ordered_paths_known :
    (left right : List EnumeratedItem)
    → All (λ path. is_on_either path left right ≡ true) (ordered_paths left right)
unfolding ordered_paths
ordered_paths_known left right =
    All-add_unseen _ right (add_unseen [] left)
      (All-add_unseen _ left [] tt
        (All-map _ _ left (λ item h. ground (arith, h)) (own_paths left)))
      (All-map _ _ right (λ item h. ground (arith, h)) (own_paths right))

pub find_path_found :
    (path : Text) (items : List EnumeratedItem)
    → is_path_of path items ≡ true
    → (item : EnumeratedItem) × (find_path path items ≡ some item)
unfolding find_path is_path_of
find_path_found path [] h = absurd (ground arith)
find_path_found path (item ∷ items) h = elim (Option-cases (find_path path items)) [
  | inr (later, e) ↦ (later, rw (e, find_path) refl)
  | inl n ↦ elim (Bool-cases (text_eq item.relative_path path)) [
    | inl same ↦ (item, rw (n, same, find_path) refl)
    | inr other ↦
        let (later, e) = find_path_found path items (ground arith) in absurd (ground arith)
  ]
]

-- A path that is on a side has an entry, under its name.
compare_entry_path :
    (path : Text) (left right : List EnumeratedItem)
    → is_on_either path left right ≡ true
    → (entry : CompareEntry) × (compare_entry path (find_path path left) (find_path path right)
        ≡ some entry)
      × (entry.relative_path ≡ path)
unfolding compare_entry
compare_entry_path path left right h = elim (Option-cases (find_path path left)) [
  | inr (l, e) ↦ elim (Option-cases (find_path path right)) [
    | inr (r, f) ↦ rw (e, f, compare_entry) (_, refl, refl)
    | inl f ↦ rw (e, f, compare_entry) (_, refl, refl)
  ]
  | inl e ↦ elim (Option-cases (find_path path right)) [
    | inr (r, f) ↦ rw (e, f, compare_entry) (_, refl, refl)
    | inl f ↦ absurd (ground (arith, find_path_found path left, find_path_found path right))
  ]
]

compare_paths-relative_path :
    (left right : List EnumeratedItem) (paths : List Text)
    → All (λ path. is_on_either path left right ≡ true) paths
    → map (λ (e : CompareEntry). e.relative_path) (compare_paths left right paths) ≡ paths
unfolding compare_paths
compare_paths-relative_path left right [] h = refl
compare_paths-relative_path left right (path ∷ paths) h =
    let (entry, e, p) = compare_entry_path path left right h.0 in
    rw (e, compare_paths) (cc (p, compare_paths-relative_path left right paths h.1))

-- A comparison reports each path that is on either side in exactly one entry, and no other path
-- (of the items as they are normalized); so it never dereferences a missing item.
pub classify_covers :
    (left_items right_items : List EnumeratedItem) (path : Text)
    → count_path path
        (map (λ (e : CompareEntry). e.relative_path) (classify left_items right_items))
      ≡ one_if (is_on_either path (normalized left_items) (normalized right_items))
unfolding classify count_path
classify_covers left_items right_items path =
    let left = normalized left_items in
    let right = normalized right_items in
    let first = count_path-add_unseen path left [] (omega arith) in
    ap (count_path path) (
      compare_paths-relative_path left right (ordered_paths left right)
        (ordered_paths_known left right))
    ∙ (unfold ordered_paths in
        count_path-add_unseen path right (add_unseen [] left) (ground (arith, first)))
    ∙ ground (arith, first)
