-- ===== src/Sync/System.antt =====
-- A server and one client of a type over time: creations and edits at the server, and exchanges.
use auto_sync_gen.Prelude.{
  ℕ, suc, ◌≤◌, ℤ, pos, ◌≡◌, refl, sym, ap, subst, ◌∙◌, get_elem?, dec_lt, Option, none, some, List,
  [], ◌∷◌, length, length-replicate, false, arith, Option-cases, inl, inr,
}
use auto_sync_gen.Result.{
  Result, ok, undefined, ◌>>=◌, >>=-eq-ok, ok_unique, err-ne-ok, Result-cases,
}
use auto_sync_gen.IdList.{seen-zero, seen-suc, seen_self}
use auto_sync_gen.Json.{Json, JsonLaws}
use auto_sync_gen.SyncObj.{SyncObj, At, edit, initial_obj, set_from_json}
use auto_sync_gen.SyncObj.Entries.{vals}
use auto_sync_gen.SyncObj.Load.{length-set_from_json}
use auto_sync_gen.SyncObj.Dirty.{Marks, edit-Marks, length-edit}
use auto_sync_gen.Lifetime.{Lifetime, LifetimeLaws}
use auto_sync_gen.Snapshot.{max_objs}
use auto_sync_gen.TypeManager.{TypeState, initial_type_state, server_create, edit_object}
use auto_sync_gen.TypeManager.View.{view, IsValid, eqb-cases, none-ne-some}
use auto_sync_gen.TypeManager.Apply.{contents, view_of_none}
use auto_sync_gen.TypeManager.Create.{
  FreshFrom, initial_type_state-IsValid, initial_type_state-FreshFrom, server_create_lem,
  server_create_bad, server_create_exhausted,
}
use auto_sync_gen.TypeManager.Edit.{edit_object_lem, edit_object_unknown}
use auto_sync_gen.Sync.{Tracks, Agrees}
use auto_sync_gen.Sync.OneType.{exchange, exchange-Agrees}

some_unique {ℓ} : {A : Type ℓ} (r : Option A) (a b : A) → r ≡ some a → r ≡ some b → a ≡ b
some_unique r a b e f = cc

module _ (J : Json) (ts : List J.FieldType) (L : Lifetime J ts) where
  pub record System : Type 0 where
    pub server : TypeState J ts L
    pub client : TypeState J ts L

  pub data Action : Type 0 where
    create : J.Val → Action
    change : {t : J.FieldType} → ℤ → At J ts t → J.Value t → Action
    synchronise : Action

  unfoldable pub act : Action → System → Result System
  act (create v) y = do (s, h) ← server_create J ts L v y.server; ok (record y { server = s })
  act (change id p x) y = do s ← edit_object J ts L id p x y.server; ok (record y { server = s })
  act synchronise y = do c ← exchange J ts L y.server y.client; ok (record y { client = c })

  unfoldable pub run : List Action → System → Result System
  run [] y = ok y
  run (a ∷ rest) y = act a y >>= run rest

  abbrev pub initial_system : System
  initial_system = record { server = initial_type_state J ts L; client = initial_type_state J ts L }

  module _ (M : LifetimeLaws J ts L) where
    pub record Inv (y : System) : Type 0 where
      pub server_valid : IsValid J ts L M y.server
      pub client_valid : IsValid J ts L M y.client
      pub flagged :
          (k : ℤ) (o : SyncObj J ts)
          → view J ts L y.server k ≡ some o
          → length o.field_flags ≡ length ts
      pub tracks : Tracks J ts L y.server y.client
      pub used : ℕ
      pub last : y.server.last_id ≡ pos used
      pub server_fresh : FreshFrom J ts L M used y.server
      pub client_fresh : FreshFrom J ts L M used y.client

    nothing : (k : ℤ) → view J ts L (initial_type_state J ts L) k ≡ none
    nothing k = initial_type_state-FreshFrom J ts L M k (seen-zero k)

    pub initial_system-Inv : Inv initial_system
    initial_system-Inv = record {
      server_valid = initial_type_state-IsValid J ts L M;
      client_valid = initial_type_state-IsValid J ts L M;
      flagged = λ k o e. absurd (none-ne-some o (sym (nothing k) ∙ e));
      tracks = λ k o p e f. absurd (none-ne-some o (sym (nothing k) ∙ e));
      used = 0;
      last = refl;
      server_fresh = initial_type_state-FreshFrom J ts L M;
      client_fresh = initial_type_state-FreshFrom J ts L M;
    }

    module _ (y : System) (i : Inv y) where
      pub create-Inv : (v : J.Val) (y' : System) → act (create v) y ≡ ok y' → Inv y'
      unfolding act
      create-Inv v y' e = elim (dec_lt i.used max_objs) [
        | no n ↦ absurd (
            err-ne-ok undefined y' (
              sym (
                rw (
                  server_create_exhausted J ts L M i.used v y.server i.last i.server_valid
                    (omega arith)))
              ∙ e))
        | yes lt ↦ elim (Result-cases (set_from_json J v (initial_obj J ts))) [
          | inr (f, bad) ↦ absurd (
              err-ne-ok f y' (
                sym (
                  rw (
                    server_create_bad J ts L M i.used v y.server i.last f lt i.server_valid
                      i.server_fresh bad))
                ∙ e))
          | inl (o, load) ↦
              let (s, h, run_ok, rd, valid, rep, last, fresh) =
                server_create_lem J ts L M i.used v y.server i.last o lt i.server_valid
                  i.server_fresh load in
              let done = ok_unique (act (create v) y) (record y { server = s }) y' (rw run_ok) e in
              subst Inv done (record {
                server_valid = valid;
                client_valid = i.client_valid;
                flagged = λ k q f. elim (eqb-cases (pos i.used) k) [
                  | inl (b, same) ↦
                      let is_o = some_unique (view J ts L s k) o q (rep k ∙ rw b) f in
                      ap (λ (r : SyncObj J ts). length r.field_flags) (sym is_o)
                      ∙ length-set_from_json J ts v (initial_obj J ts) o load
                      ∙ length-replicate (length ts) false
                  | inr (b, ne) ↦ i.flagged k q (sym (rep k ∙ rw b) ∙ f)
                ];
                tracks = λ k q p f g. elim (eqb-cases (pos i.used) k) [
                  | inl (b, same) ↦ absurd (
                      none-ne-some p (
                        sym (
                          subst (λ j. view J ts L y.client j ≡ none) same
                            (i.client_fresh (pos i.used) (seen_self i.used)))
                        ∙ g))
                  | inr (b, ne) ↦ i.tracks k q p (sym (rep k ∙ rw b) ∙ f) g
                ];
                used = suc i.used;
                last = last;
                server_fresh = fresh;
                client_fresh = λ k f. i.client_fresh k (ground (arith, seen-suc i.used k));
              })
        ]
      ]

      pub change-Inv :
          {t : J.FieldType} (id : ℤ) (p : At J ts t) (x : J.Value t) (y' : System)
          → act (change id p x) y ≡ ok y'
          → Inv y'
      unfolding act
      change-Inv id p x y' e = elim (Option-cases (view J ts L y.server id)) [
        | inl n ↦ absurd (
            err-ne-ok undefined y'
              (sym (rw (edit_object_unknown J ts L M id p x y.server i.server_valid n)) ∙ e))
        | inr (q, seen_q) ↦
            let (s, run_ok, valid, rep, last) =
              edit_object_lem J ts L M id p x y.server i.server_valid q seen_q in
            let done =
              ok_unique (act (change id p x) y) (record y { server = s }) y' (rw run_ok) e in
            subst Inv done (record {
              server_valid = valid;
              client_valid = i.client_valid;
              flagged = λ k o f. elim (eqb-cases id k) [
                | inl (b, same) ↦
                    let is_o = some_unique (view J ts L s k) (edit J p x q) o (rep k ∙ rw b) f in
                    ap (λ (r : SyncObj J ts). length r.field_flags) (sym is_o)
                    ∙ length-edit J p x q
                    ∙ i.flagged id q seen_q
                | inr (b, ne) ↦ i.flagged k o (sym (rep k ∙ rw b) ∙ f)
              ];
              tracks = λ k o c f g. elim (eqb-cases id k) [
                | inl (b, same) ↦
                    let is_o = some_unique (view J ts L s k) (edit J p x q) o (rep k ∙ rw b) f in
                    subst (Marks J c) is_o (
                      edit-Marks J p x c q (
                        i.tracks k q c (subst (λ j. view J ts L y.server j ≡ some q) same seen_q)
                          g))
                | inr (b, ne) ↦ i.tracks k o c (sym (rep k ∙ rw b) ∙ f) g
              ];
              used = i.used;
              last = last ∙ i.last;
              server_fresh = λ k f. elim (eqb-cases id k) [
                | inl (b, same) ↦ absurd (
                    none-ne-some q (
                      sym (i.server_fresh k f)
                      ∙ subst (λ j. view J ts L y.server j ≡ some q) same seen_q))
                | inr (b, ne) ↦ rep k ∙ rw b (i.server_fresh k f)
              ];
              client_fresh = i.client_fresh;
            })
      ]

      -- A well-formed client that agrees with the server may take the client's place.
      pub agreed-Inv :
          (c : TypeState J ts L)
          → IsValid J ts L M c
          → Agrees J ts L y.server c
          → Inv (record y { client = c })
      unfolding contents
      agreed-Inv c valid agrees = record {
        server_valid = i.server_valid;
        client_valid = valid;
        flagged = i.flagged;
        tracks = λ k o p f g.
            let same =
              some_unique (contents J ts L c k) p.fields o.fields (rw g) (agrees k ∙ rw f) in
            record {
              sized = i.flagged k o f;
              clean = λ n h. ap (λ xs. get_elem? (vals J ts xs) n) (sym same);
            };
        used = i.used;
        last = i.last;
        server_fresh = i.server_fresh;
        client_fresh = λ k f. view_of_none J ts L c k (agrees k ∙ rw (i.server_fresh k f));
      }

      module _ (W : JsonLaws J) (small : length ts ≤ max_objs) where
        -- An exchange succeeds, and afterwards the client agrees with the server.
        pub exchange_lem :
            (c : TypeState J ts L) × (exchange J ts L y.server y.client ≡ ok c)
            × Inv (record y { client = c })
            × Agrees J ts L y.server c
        exchange_lem =
            let (c, run_ok, valid, agrees) =
              exchange-Agrees J W ts L M y.server y.client small i.server_valid i.client_valid
                i.tracks in
            (c, run_ok, agreed-Inv c valid agrees, agrees)

        pub act-Inv : (a : Action) (y' : System) → act a y ≡ ok y' → Inv y'
        unfolding act
        act-Inv (create v) y' e = create-Inv v y' e
        act-Inv (change id p x) y' e = change-Inv id p x y' e
        act-Inv synchronise y' e =
            let (c, run_ok, inv, agrees) = exchange_lem in
            let done = ok_unique (act synchronise y) (record y { client = c }) y' (rw run_ok) e in
            subst Inv done inv

    run-Inv :
        (W : JsonLaws J) (small : length ts ≤ max_objs) (todo : List Action) (y y' : System)
        → Inv y
        → run todo y ≡ ok y'
        → Inv y'
    unfolding run
    run-Inv W small [] y y' i e = subst Inv (cc) i
    run-Inv W small (a ∷ todo) y y' i e =
        let (y1, r, rest) = >>=-eq-ok (act a y) (run todo) e in
        run-Inv W small todo y1 y' (act-Inv y i W small a y1 r) rest

-- If a run of creations, edits and exchanges of one type with at most `maxObjs` fields, from a new
-- server and a new client, returns, then the next exchange succeeds, and afterwards the client has
-- objects under exactly the server's identifiers, each with the server's fields.
pub run-Agrees :
    (J : Json) (W : JsonLaws J) (ts : List J.FieldType) (L : Lifetime J ts)
    (M : LifetimeLaws J ts L) (todo : List (Action J ts L)) (y : System J ts L)
    → length ts ≤ max_objs
    → run J ts L todo (initial_system J ts L) ≡ ok y
    → (c : TypeState J ts L) × (exchange J ts L y.server y.client ≡ ok c) × Agrees J ts L y.server c
run-Agrees J W ts L M todo y small e =
    let i =
      run-Inv J ts L M W small todo (initial_system J ts L) y (initial_system-Inv J ts L M) e in
    let (c, run_ok, inv, agrees) = exchange_lem J ts L M y i W small in (c, run_ok, agrees)
