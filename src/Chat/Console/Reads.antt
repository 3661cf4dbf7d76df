-- ===== src/Chat/Console/Reads.antt =====
-- What the program reads of lines that the user types.
use Prim.Native.String.{String}
use auto_sync_gen.Prelude.{
  ℕ, zero, suc, ◌<◌, ◌≤◌, ℤ, pos, ◌≡◌, ◌≢◌, refl, ap, ◌∙◌, true, false, Bool, Bool-cases, List, [],
  ◌∷◌, ◌++◌, length, Option, none, some, eqb_ℤ, eqb_ℤ_iff, if◌then◌else◌, inl, inr, arith,
}
use auto_sync_gen.Chat.Menu.{Choice, new_message, edit_message, show_data, disconnect, other}
use auto_sync_gen.Chat.Console.{
  Console, UnsetTemp, Role, server_role, client_role, safe_cin, safe_int, safe_text, select_role,
  read_choice,
}

-- What is documented of the standard input, where the user has typed lines of words. While the stream
-- has not failed, `>>` reads a word at the front of the line, or what of it is a number; text without a
-- number, or with one out of range, makes the stream fail. A stream that has failed reads and ignores
-- nothing, until `clear` ends the failure. `ignore` drops what is left of the line with its end, if the
-- line has fewer characters than that.
pub record ConsoleLaws (IpAddress : Type 0) (K : Console IpAddress) : Type 1 where
  pub lines : K.In → List (List String)
  pub failed : K.In → Bool
  pub width : List String → ℕ
  pub width_rest : (t : String) (ts : List String) → width ts ≤ width (t ∷ ts)
  pub value : String → ℤ
  pub fails : String → Bool
  pub get_int_lem :
      (temp : ℤ) (i : K.In) (t : String) (ts : List String) (ls : List (List String))
      → failed i ≡ false
      → lines i ≡ (t ∷ ts) ∷ ls
      → (j : K.In) × (left : List String) × (K.get_int temp i ≡ (value t, j))
        × (failed j ≡ fails t)
        × (lines j ≡ left ∷ ls)
        × (width left ≤ width (t ∷ ts))
  pub get_text_lem :
      (temp : String) (i : K.In) (t : String) (ts : List String) (ls : List (List String))
      → failed i ≡ false
      → lines i ≡ (t ∷ ts) ∷ ls
      → (j : K.In) × (K.get_text temp i ≡ (t, j)) × (failed j ≡ false) × (lines j ≡ ts ∷ ls)
  pub get_int-failed : (temp : ℤ) (i : K.In) → failed i ≡ true → (K.get_int temp i).1 ≡ i
  pub get_text-failed : (temp : String) (i : K.In) → failed i ≡ true → (K.get_text temp i).1 ≡ i
  pub ignore_line-failed : (n : ℕ) (i : K.In) → failed i ≡ true → K.ignore_line n i ≡ i
  pub failed-clear : (i : K.In) → failed (K.clear i) ≡ false
  pub lines-clear : (i : K.In) → lines (K.clear i) ≡ lines i
  pub ignore_line_lem :
      (n : ℕ) (i : K.In) (l : List String) (ls : List (List String))
      → failed i ≡ false
      → lines i ≡ l ∷ ls
      → width l < n
      → (failed (K.ignore_line n i) ≡ false) × (lines (K.ignore_line n i) ≡ ls)

module _ (IpAddress : Type 0) (K : Console IpAddress) (W : ConsoleLaws IpAddress K)
    (u : UnsetTemp IpAddress) where
  -- The number that a word is read as.
  abbrev pub number : String → ℤ
  number t = W.value t

  -- The stream has not failed, and the user has typed those lines.
  abbrev pub IsAt : K.In → List (List String) → Type 0
  IsAt i ls = (W.failed i ≡ false) × (W.lines i ≡ ls)

  -- A line that `ignore` drops as a whole.
  abbrev pub IsShort : List String → Type 0
  IsShort l = W.width l < 10000

  -- Between two reads, the failure is ended and the line is dropped.
  next_line :
      (j : K.In) (l : List String) (ls : List (List String))
      → W.lines j ≡ l ∷ ls
      → IsShort l
      → IsAt (K.ignore_line 10000 (K.clear j)) ls
  next_line j l ls left short =
      W.ignore_line_lem 10000 (K.clear j) l ls (W.failed-clear j) (W.lines-clear j ∙ left) short

  module _ (i : K.In) (t : String) (ts : List String) (ls : List (List String))
      (typed : IsAt i ((t ∷ ts) ∷ ls)) (short : IsShort (t ∷ ts)) where
    -- Of a line, `safeCin<int>` reads the number at its front. The stream is then at the next line, and
    -- has not failed, also if there is no number.
    pub safe_int_lem : (j : K.In) × (safe_int IpAddress K u i ≡ (number t, j)) × IsAt j ls
    unfolding safe_cin
    safe_int_lem =
        let (j, left, read, fail, after, narrow) = W.get_int_lem u.int i t ts ls typed.0 typed.1 in
        (
          K.ignore_line 10000 (K.clear j),
          ap (λ x. (x.0, K.ignore_line 10000 (K.clear x.1))) read,
          next_line j left ls after (omega arith),
        )

    -- Of a line, `safeCin<std::string>` reads the first word.
    pub safe_text_lem : (j : K.In) × (safe_text IpAddress K u i ≡ (t, j)) × IsAt j ls
    unfolding safe_cin
    safe_text_lem =
        let (j, read, fine, after) = W.get_text_lem "" i t ts ls typed.0 typed.1 in
        (
          K.ignore_line 10000 (K.clear j),
          ap (λ x. (x.0, K.ignore_line 10000 (K.clear x.1))) read,
          next_line j ts ls after (omega (arith, W.width_rest t ts)),
        )

  -- What a choice selects, if it is valid.
  abbrev pub selection : ℤ → Option (Option Role)
  selection n =
      if eqb_ℤ n (pos 0)
      then some (some server_role)
      else (if eqb_ℤ n (pos 1)
          then some (some client_role)
          else (if eqb_ℤ n (pos 2) then some none else none))

  -- Lines that are no valid choice.
  abbrev pub AreInvalid : List (List String) → Type 0
  AreInvalid [] = Unit {0}
  AreInvalid ([] ∷ ls) = ⊥
  AreInvalid ((t ∷ ts) ∷ ls) = (selection (number t) ≡ none) × IsShort (t ∷ ts) × AreInvalid ls

  chosen : Option (Option Role) → K.In → Option (Option Role × K.In) → Option (Option Role × K.In)
  chosen none j again = again
  chosen (some r) j again = some (r, j)

  role_round :
      (n : ℕ) (i j : K.In) (z : ℤ)
      → safe_int IpAddress K u i ≡ (z, j)
      → select_role IpAddress K u (suc n) i ≡ chosen (selection z) j (select_role IpAddress K u n j)
  unfolding select_role chosen
  role_round n i j z read = elim (Bool-cases (eqb_ℤ z (pos 0))) [
    | inl b ↦ rw (read, b) refl
    | inr b ↦ elim (Bool-cases (eqb_ℤ z (pos 1))) [
      | inl b1 ↦ rw (read, b, b1) refl
      | inr b1 ↦ elim (Bool-cases (eqb_ℤ z (pos 2))) [
        | inl b2 ↦ rw (read, b, b1, b2) refl
        | inr b2 ↦ rw (read, b, b1, b2) refl
      ]
    ]
  ]

  -- If the stream has not failed, and the user types lines that are read as no valid choice, and then
  -- one that is read as a choice, none of them as long as what the program skips, then the loop of
  -- `selectRole` ends after that line, with what is chosen, in as many rounds as there are lines, and
  -- the stream has not failed, also if some of the lines have no number.
  pub select_role_lem :
      (bad : List (List String)) (i : K.In) (n : ℕ) (t : String) (ts : List String)
      (ls : List (List String)) (r : Option Role)
      → IsAt i (bad ++ (t ∷ ts) ∷ ls)
      → AreInvalid bad
      → IsShort (t ∷ ts)
      → selection (number t) ≡ some r
      → length bad < n
      → (j : K.In) × (select_role IpAddress K u n i ≡ some (r, j)) × IsAt j ls
  unfolding chosen
  select_role_lem [] i zero t ts ls r typed invalid short valid enough = absurd (omega arith)
  select_role_lem (bad ∷ more) i zero t ts ls r typed invalid short valid enough =
      absurd (omega arith)
  select_role_lem [] i (suc n) t ts ls r typed invalid short valid enough =
      let (j, read, after) = safe_int_lem i t ts ls typed short in
      (j, role_round n i j (number t) read ∙ rw valid refl, after)
  select_role_lem ([] ∷ more) i (suc n) t ts ls r typed invalid short valid enough = absurd invalid
  select_role_lem ((b ∷ bs) ∷ more) i (suc n) t ts ls r typed (no_choice, narrow, invalid) short
        valid enough =
      let (j, read, after) = safe_int_lem i b bs (more ++ (t ∷ ts) ∷ ls) typed narrow in
      let (j', done, left) =
        select_role_lem more j n t ts ls r after invalid short valid (omega arith) in
      (j', role_round n i j (number b) read ∙ rw no_choice done, left)

  -- The lines that a user types for a choice, before others.
  pub data Enters : Choice → List (List String) → List (List String) → Type 0 where
    new_message_lines :
        (c msg : String) (cs rest : List String) (ls : List (List String))
        → number c ≡ pos 0
        → IsShort (c ∷ cs)
        → IsShort (msg ∷ rest)
        → Enters (new_message msg) ((c ∷ cs) ∷ (msg ∷ rest) ∷ ls) ls
    edit_message_lines :
        (c id msg : String) (cs ids rest : List String) (ls : List (List String))
        → number c ≡ pos 1
        → IsShort (c ∷ cs)
        → IsShort (id ∷ ids)
        → IsShort (msg ∷ rest)
        → Enters (edit_message (number id) msg) ((c ∷ cs) ∷ (id ∷ ids) ∷ (msg ∷ rest) ∷ ls) ls
    show_data_line :
        (c : String) (cs : List String) (ls : List (List String))
        → number c ≡ pos 2
        → IsShort (c ∷ cs)
        → Enters show_data ((c ∷ cs) ∷ ls) ls
    disconnect_line :
        (c : String) (cs : List String) (ls : List (List String))
        → number c ≡ pos 3
        → IsShort (c ∷ cs)
        → Enters disconnect ((c ∷ cs) ∷ ls) ls
    other_line :
        (c : String) (cs : List String) (ls : List (List String))
        → number c ≢ pos 0
        → number c ≢ pos 1
        → number c ≢ pos 2
        → number c ≢ pos 3
        → IsShort (c ∷ cs)
        → Enters (other (number c)) ((c ∷ cs) ∷ ls) ls

  differs : (a b : ℤ) → a ≢ b → eqb_ℤ a b ≡ false
  differs a b ne = elim (Bool-cases (eqb_ℤ a b)) [
    | inl e ↦ absurd (ne ((eqb_ℤ_iff a b).0 e))
    | inr e ↦ e
  ]

  -- A round of the client's menu reads the choice that the user enters.
  pub read_choice_lem :
      (choice : Choice) (before after : List (List String)) (i : K.In)
      → Enters choice before after
      → IsAt i before
      → (j : K.In) × (read_choice IpAddress K u i ≡ (choice, j)) × IsAt j after
  unfolding read_choice eqb_ℤ
  read_choice_lem choice before after i (new_message_lines c msg cs rest ls is_c short short')
        typed =
      let (j, read, left) = safe_int_lem i c cs _ typed short in
      let (j1, read1, left1) = safe_text_lem j msg rest ls left short' in
      (j1, rw (read, is_c, read1) refl, left1)
  read_choice_lem choice before after i
        (edit_message_lines c id msg cs ids rest ls is_c short short' short'') typed =
      let (j, read, left) = safe_int_lem i c cs _ typed short in
      let (j1, read1, left1) = safe_int_lem j id ids _ left short' in
      let (j2, read2, left2) = safe_text_lem j1 msg rest ls left1 short'' in
      (j2, rw (read, is_c, read1, read2) refl, left2)
  read_choice_lem choice before after i (show_data_line c cs ls is_c short) typed =
      let (j, read, left) = safe_int_lem i c cs _ typed short in (j, rw (read, is_c) refl, left)
  read_choice_lem choice before after i (disconnect_line c cs ls is_c short) typed =
      let (j, read, left) = safe_int_lem i c cs _ typed short in (j, rw (read, is_c) refl, left)
  read_choice_lem choice before after i (other_line c cs ls ne0 ne1 ne2 ne3 short) typed =
      let (j, read, left) = safe_int_lem i c cs _ typed short in
      (
        j,
        rw
            (
              read,
              differs (number c) (pos 0) ne0,
              differs (number c) (pos 1) ne1,
              differs (number c) (pos 2) ne2,
              differs (number c) (pos 3) ne3,
            )
            refl,
        left,
      )
