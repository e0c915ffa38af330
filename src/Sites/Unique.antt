-- ===== src/Sites/Unique.antt =====
-- The ids of the sites that SiteStore of backends/SavedSite.cpp loads.
use zephyrftp.Base.{
  ℕ, suc, ◌≤◌, ◌≡◌, refl, ap, ◌∙◌, true, false, List, [], ◌∷◌, map, some, arith, inl, inr,
  Bool-cases, All,
}
use zephyrftp.Base.Text.{Text, text_eq, text_eq_iff, text_eq_refl, is_empty}
use zephyrftp.Json.{
  JsonItems, to_list, value, to_text, to_number, to_bool, to_object, to_list-of_list, array,
}
use zephyrftp.Backends.Protocol.{protocol_from_key-to_key}
use zephyrftp.Sites.Stored.{auth_round_trip}
use zephyrftp.Sites.Store.{
  SavedSite, has_text, backfilled, used, deduplicated, identified, load_sites, save_sites,
  read_sites, site_from_json, site_to_json,
}

-- No two of the ids are the same.
abbrev pub UniqueIds : List SavedSite → Type 0
UniqueIds [] = Unit
UniqueIds (s ∷ ss) = (has_text s.id (map (λ (x : SavedSite). x.id) ss) ≡ false) × UniqueIds ss

abbrev pub ids : List SavedSite → List Text
ids ss = map (λ (x : SavedSite). x.id) ss

module _ (uuids : ℕ → Text) (injective : (i j : ℕ) → uuids i ≡ uuids j → i ≡ j) where
  -- The texts from the k-th on are not among these.
  abbrev FreshFrom : ℕ → List Text → Type 0
  FreshFrom k ts = (i : ℕ) → k ≤ i → has_text (uuids i) ts ≡ false

  different : (i j : ℕ) → suc i ≤ j → text_eq (uuids i) (uuids j) ≡ false
  different i j l = ground (arith, injective i j, text_eq_iff (uuids i) (uuids j))

  fresh_used : (k : ℕ) (seen : List Text) → FreshFrom k seen → FreshFrom (suc k) (uuids k ∷ seen)
  unfolding has_text
  fresh_used k seen f i l = ground (arith, f i, different k i)

  fresh_kept :
      (k : ℕ) (seen : List Text) (s : SavedSite) (ss : List SavedSite)
      → FreshFrom k seen
      → FreshFrom k (ids (s ∷ ss))
      → FreshFrom k (s.id ∷ seen)
  unfolding has_text
  fresh_kept k seen s ss f g i l = ground (arith, f i, g i)

  fresh_rest :
      (k : ℕ) (s : SavedSite) (ss : List SavedSite)
      → FreshFrom k (ids (s ∷ ss))
      → FreshFrom k (ids ss)
  unfolding has_text
  fresh_rest k s ss g i l = ground (arith, g i)

  fresh_later : (k : ℕ) (ts : List Text) → FreshFrom k ts → FreshFrom (suc k) ts
  fresh_later k ts f i l = f i (omega arith)

  differ :
      (a b : Text) (seen : List Text)
      → has_text a seen ≡ false
      → has_text b seen ≡ true
      → text_eq a b ≡ false
  differ a b seen h g = ground (arith, text_eq_iff a b)

  -- An id that was seen is not given out again.
  deduplicated_unseen :
      (t : Text) (seen : List Text) (k : ℕ) (ss : List SavedSite)
      → has_text t seen ≡ true
      → FreshFrom k seen
      → FreshFrom k (ids ss)
      → has_text t (ids (deduplicated uuids seen k ss)) ≡ false
  unfolding deduplicated has_text
  deduplicated_unseen t seen k [] h f g = refl
  deduplicated_unseen t seen k (s ∷ ss) h f g = elim (Bool-cases (has_text s.id seen)) [
    | inl dup ↦
        rw (dup, deduplicated)
          (ground (
            arith,
            differ (uuids k) t seen (f k (omega arith)) h,
            deduplicated_unseen t (uuids k ∷ seen) (suc k) ss (ground arith) (fresh_used k seen f)
                (fresh_later k (ids ss) (fresh_rest k s ss g)),
          ))
    | inr new ↦
        rw (new, deduplicated)
          (ground (
            arith,
            differ s.id t seen new h,
            deduplicated_unseen t (s.id ∷ seen) k ss (ground arith) (fresh_kept k seen s ss f g)
                (fresh_rest k s ss g),
          ))
  ]

  deduplicated-UniqueIds :
      (seen : List Text) (k : ℕ) (ss : List SavedSite)
      → FreshFrom k seen
      → FreshFrom k (ids ss)
      → UniqueIds (deduplicated uuids seen k ss)
  unfolding deduplicated has_text
  deduplicated-UniqueIds seen k [] f g = tt
  deduplicated-UniqueIds seen k (s ∷ ss) f g = elim (Bool-cases (has_text s.id seen)) [
    | inl dup ↦
        let f' : FreshFrom (suc k) (uuids k ∷ seen) = fresh_used k seen f in
        let g' : FreshFrom (suc k) (ids ss) = fresh_later k (ids ss) (fresh_rest k s ss g) in
        rw (dup, deduplicated)
          (
            deduplicated_unseen (uuids k) (uuids k ∷ seen) (suc k) ss
                (rw (text_eq_refl (uuids k)) refl) f' g',
            deduplicated-UniqueIds (uuids k ∷ seen) (suc k) ss f' g',
          )
    | inr new ↦
        let f' : FreshFrom k (s.id ∷ seen) = fresh_kept k seen s ss f g in
        let g' : FreshFrom k (ids ss) = fresh_rest k s ss g in
        rw (new, deduplicated)
          (
            deduplicated_unseen s.id (s.id ∷ seen) k ss (rw (text_eq_refl s.id) refl) f' g',
            deduplicated-UniqueIds (s.id ∷ seen) k ss f' g',
          )
  ]

  backfilled-FreshFrom :
      (k : ℕ) (ss : List SavedSite)
      → FreshFrom 0 (ids ss)
      → FreshFrom (used uuids k ss) (ids (backfilled uuids k ss)) × (k ≤ used uuids k ss)
  unfolding backfilled used has_text
  backfilled-FreshFrom k [] g = (λ i l. refl, omega arith)
  backfilled-FreshFrom k (s ∷ ss) g = elim (Bool-cases (is_empty s.id)) [
    | inl none_yet ↦
        let ih = backfilled-FreshFrom (suc k) ss (fresh_rest 0 s ss g) in
        rw (none_yet, backfilled, used)
          (λ i l. ground (arith, ih.0 i, different k i, ih.1), omega (arith, ih.1))
    | inr given ↦
        let ih = backfilled-FreshFrom k ss (fresh_rest 0 s ss g) in
        rw (given, backfilled, used) (λ i l. ground (arith, ih.0 i, g i (omega arith)), ih.1)
  ]

  -- The sites that are loaded have different ids, whatever the document says, where the ids that
  -- QUuid::createUuid gives are all different and none of them stands in the document.
  pub load_sites-UniqueIds :
      (vs : JsonItems)
      → ((i : ℕ) → has_text (uuids i) (ids (read_sites (to_list vs))) ≡ false)
      → UniqueIds (load_sites uuids (some (array vs)))
  unfolding load_sites has_text
  load_sites-UniqueIds vs g =
      let sites : List SavedSite = read_sites (to_list vs) in
      deduplicated-UniqueIds [] (used uuids 0 sites) (backfilled uuids 0 sites) (λ i l. refl)
        (backfilled-FreshFrom 0 sites (λ i l. g i)).0

-- What a site manager saves: sites with ids.
abbrev pub HasId : SavedSite → Type 0
HasId s = is_empty s.id ≡ false

module _ (uuids : ℕ → Text) where
  site_round_trip : (s : SavedSite) → site_from_json (to_object (site_to_json s)) ≡ s
  unfolding site_from_json site_to_json to_object value text_eq to_text to_number to_bool
  site_round_trip s = rw (protocol_from_key-to_key s.protocol, auth_round_trip s.auth_method) refl

  sites_round_trip : (ss : List SavedSite) → read_sites (map site_to_json ss) ≡ ss
  unfolding read_sites site_to_json to_object
  sites_round_trip [] = refl
  sites_round_trip (s ∷ ss) = rw (site_round_trip s, sites_round_trip ss) refl

  backfilled_same : (k : ℕ) (ss : List SavedSite) → All HasId ss → backfilled uuids k ss ≡ ss
  unfolding backfilled
  backfilled_same k [] h = refl
  backfilled_same k (s ∷ ss) (h, hs) = rw (h, backfilled, backfilled_same k ss hs) refl

  -- Ids that are not among those that were seen, and unique, are kept.
  abbrev Unseen : List Text → List SavedSite → Type 0
  Unseen seen ss = All (λ (s : SavedSite). has_text s.id seen ≡ false) ss

  Unseen-cons :
      (t : Text) (seen : List Text) (ss : List SavedSite)
      → has_text t (ids ss) ≡ false
      → Unseen seen ss
      → Unseen (t ∷ seen) ss
  unfolding has_text
  Unseen-cons t seen [] h u = tt
  Unseen-cons t seen (s ∷ ss) h (u, us) = (
    ground (arith, text_eq_iff s.id t, text_eq_iff t s.id),
    Unseen-cons t seen ss (ground arith) us,
  )

  deduplicated_same :
      (seen : List Text) (k : ℕ) (ss : List SavedSite)
      → UniqueIds ss
      → Unseen seen ss
      → deduplicated uuids seen k ss ≡ ss
  unfolding deduplicated
  deduplicated_same seen k [] u f = refl
  deduplicated_same seen k (s ∷ ss) (u, us) (f, fs) =
      rw (f, deduplicated, deduplicated_same (s.id ∷ seen) k ss us (Unseen-cons s.id seen ss u fs))
        refl

  Unseen-none : (ss : List SavedSite) → Unseen [] ss
  unfolding has_text
  Unseen-none [] = tt
  Unseen-none (s ∷ ss) = (refl, Unseen-none ss)

  -- Sites with ids that are all different are loaded as they were saved, in order.
  pub load_sites-save_sites :
      (ss : List SavedSite)
      → All HasId ss
      → UniqueIds ss
      → load_sites uuids (some (save_sites ss)) ≡ ss
  unfolding load_sites save_sites
  load_sites-save_sites ss h u =
      ap (identified uuids)
        (ap read_sites (to_list-of_list (map site_to_json ss)) ∙ sites_round_trip ss)
      ∙ ap (deduplicated uuids [] (used uuids 0 ss)) (backfilled_same 0 ss h)
      ∙ deduplicated_same [] (used uuids 0 ss) ss u (Unseen-none ss)
