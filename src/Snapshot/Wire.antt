-- ===== src/Snapshot/Wire.antt =====
-- A snapshot sent as json and read back.
use auto_sync_gen.Prelude.{
  ℕ, zero, suc, ◌+◌, ◌≡◌, refl, subst, some, List, [], ◌∷◌, ◌++◌, append_cons, append-nil, length,
  get_elem?, arith,
}
use auto_sync_gen.Result.{Result, ok}
use auto_sync_gen.IdMap.Order.{IsSorted}
use auto_sync_gen.Bitset.{Bitset}
use auto_sync_gen.Json.{Json, JsonLaws}
use auto_sync_gen.Snapshot.{
  max_objs, TplRepeat, SnapshotTypeData, Snapshot, snapshot_type_to_json, snapshot_type_from_json,
  emplace_all, read_all, snapshot_to_json, snapshot_from_json,
}
use auto_sync_gen.Snapshot.Entries.{read-put_entries}

abbrev pub All : {A : Type 0} → (A → Type 0) → (n : ℕ) → TplRepeat A n → Type 0
All P zero xs = Unit {0}
All P (suc n) (x, xs) = P x × All P n xs

abbrev pub elements : {A B : Type 0} → (A → B) → (n : ℕ) → TplRepeat A n → List B
elements f zero xs = []
elements f (suc n) (x, xs) = f x ∷ elements f n xs

module _ (J : Json) (W : JsonLaws J) where
  open J use {Val, mk_arr, of_bits, as_bits}

  module _ {A : Type 0} (f : A → Val) (g : Val → Result A) where
    emplace_all_lem :
        (n : ℕ) (xs : TplRepeat A n) (vs : List Val)
        → emplace_all J f n xs (mk_arr vs) ≡ mk_arr (vs ++ elements f n xs)
    unfolding emplace_all
    emplace_all_lem zero xs vs = rw (append-nil vs) refl
    emplace_all_lem (suc n) (x, xs) vs =
        rw (W.emplace-mk_arr vs (f x), emplace_all_lem n xs (vs ++ f x ∷ []))
          (rw (append_cons vs (f x) (elements f n xs)) refl)

    read_all_lem :
        (n i : ℕ) (xs : TplRepeat A n) (vs : List Val)
        → All (λ x. g (f x) ≡ ok x) n xs
        → ((j : ℕ) (w : Val)
            → get_elem? (elements f n xs) j ≡ some w
            → (k : ℕ) → k ≡ i + j
            → get_elem? vs k ≡ some w)
        → read_all J g n i (mk_arr vs) ≡ ok xs
    unfolding read_all
    read_all_lem zero i xs vs back h = refl
    read_all_lem (suc n) i (x, xs) vs (b, back) h = rw (
      W.nth-mk_arr vs i (f x) (h zero (f x) refl i (omega arith)),
      b,
      read_all_lem n (suc i) xs vs back (λ j w e k q. h (suc j) w e k (omega arith)),
    )

    -- A tuple whose components are read back from their json is read back from the array of these.
    pub read_all-emplace_all :
        (n : ℕ) (xs : TplRepeat A n)
        → All (λ x. g (f x) ≡ ok x) n xs
        → read_all J g n zero (emplace_all J f n xs (mk_arr [])) ≡ ok xs
    read_all-emplace_all n xs back = rw (emplace_all_lem n xs []) (
        read_all_lem n zero xs (elements f n xs) back
          (λ j w e k q. subst (λ i. get_elem? (elements f n xs) i ≡ some w) (omega arith) e))

  -- A snapshot of one type whose items are sorted by identifier, as those of `std::map` are, is read
  -- back from its json.
  pub snapshot_type_from_json-snapshot_type_to_json :
      (d : SnapshotTypeData J)
      → IsSorted d.items
      → snapshot_type_from_json J (snapshot_type_to_json J d) ≡ ok d
  unfolding snapshot_type_from_json snapshot_type_to_json
  snapshot_type_from_json-snapshot_type_to_json d s =
      let (l, listed, read) = read-put_entries J W d.items s in rw (listed, read) refl

  -- The bitsets of a snapshot have `maxObjs` bits, and its items are sorted by identifier.
  pub record IsSnapshot (n : ℕ) (s : Snapshot J n) : Type 0 where
    pub sized : All (λ b. length b ≡ max_objs) n s.bitset_ids
    pub sorted : All (λ d. IsSorted d.items) n s.type_datas

  bits_back :
      (n : ℕ) (bs : TplRepeat Bitset n)
      → All (λ b. length b ≡ max_objs) n bs
      → All (λ b. as_bits max_objs (of_bits b) ≡ ok b) n bs
  bits_back zero bs h = tt
  bits_back (suc n) (b, bs) (h, hs) =
      (subst (λ k. as_bits k (of_bits b) ≡ ok b) h (W.as-of_bits b), bits_back n bs hs)

  datas_back :
      (n : ℕ) (ds : TplRepeat (SnapshotTypeData J) n)
      → All (λ d. IsSorted d.items) n ds
      → All (λ d. snapshot_type_from_json J (snapshot_type_to_json J d) ≡ ok d) n ds
  datas_back zero ds h = tt
  datas_back (suc n) (d, ds) (h, hs) =
      (snapshot_type_from_json-snapshot_type_to_json d h, datas_back n ds hs)

  -- A snapshot whose bitsets have `maxObjs` bits and whose items are sorted by identifier is read back
  -- from its json.
  pub snapshot_from_json-snapshot_to_json :
      (n : ℕ) (s : Snapshot J n)
      → IsSnapshot n s
      → snapshot_from_json J n (snapshot_to_json J n s) ≡ ok s
  unfolding snapshot_from_json snapshot_to_json
  snapshot_from_json-snapshot_to_json n s h = rw (
    W.nth-mk_arr _ 0 _ refl,
    W.nth-mk_arr _ 1 _ refl,
    read_all-emplace_all of_bits (as_bits max_objs) n s.bitset_ids
        (bits_back n s.bitset_ids h.sized),
    read_all-emplace_all (snapshot_type_to_json J) (snapshot_type_from_json J) n s.type_datas
        (datas_back n s.type_datas h.sorted),
  )
