-- ===== src/Chat/Lines.antt =====
-- What the chat promises its users: a list of lines, each with its author and its text, of which the
-- identifier of a message is the position.
use Prim.Native.String.{String}
use auto_sync_gen.Prelude.{
  ℕ, suc, ◌<◌, ℤ, pos, negsuc, ◌≡◌, refl, sym, ap, ◌∙◌, List, [], ◌∷◌, ◌++◌, length, length-set,
  length-append_one, get_elem?, get_elem?-append, get_elem?-set, get_elem?-below, set, Option, none,
  some, ltb, if◌then◌else◌, eqb_ℤ, ◌==◌, false, arith, Bool-cases, Option-cases, some_unique, subst,
  ==_iff, inl, inr,
}
use mathlib.Core.Option
use auto_sync_gen.Json.{Json}
use auto_sync_gen.SyncObj.{TplFields}
use auto_sync_gen.Snapshot.{max_objs}
use auto_sync_gen.TypeManager.View.{none-ne-some}
use auto_sync_gen.Chat.{ChatTypes, message_types}

-- A line of the chat: its author and its text.
abbrev pub Line : Type 0
Line = String × String

-- A new line, if there is room for it.
unfoldable pub add_line : Line → List Line → Option (List Line)
add_line l ls = if ltb (length ls) max_objs then some (ls ++ l ∷ []) else none

-- Another text for the line of an identifier, if there is one.
unfoldable pub edit_line : ℤ → String → List Line → Option (List Line)
edit_line (pos k) text ls = Option.map (λ l. set ls k (l.0, text)) (get_elem? ls k)
edit_line (negsuc k) text ls = none

module _ (J : Json) (C : ChatTypes J) where
  -- The fields of the message that shows a line.
  abbrev pub shown_line : ℕ → Line → TplFields J (message_types J C)
  shown_line k l = (C.int_of (pos k), (C.text_of l.0, (C.text_of l.1, tt)))

  -- The messages that show the lines.
  unfoldable pub shown : List Line → ℤ → Option (TplFields J (message_types J C))
  shown ls (pos k) = Option.map (shown_line k) (get_elem? ls k)
  shown ls (negsuc k) = none

  shown_replaced :
      (l : Line) (n i : ℕ) (x y : Option Line)
      → x ≡ (if i == n then some l else y)
      → Option.map (shown_line i) x
        ≡ (if n == i then some (shown_line n l) else Option.map (shown_line i) y)
  shown_replaced l n i x y e = elim (Bool-cases (n == i)) [
    | inl b ↦
        let same = (==_iff n i).0 b in
        let here : x ≡ some l = e ∙ rw ((==_iff i n).1 (sym same)) refl in
        rw (b, here) (ap (λ m. some (shown_line m l)) (sym same))
    | inr b ↦
        let apart : (i == n) ≡ false = ground arith in
        let there : x ≡ y = e ∙ rw apart refl in rw (b, there) refl
  ]

  shown-append :
      (l : Line) (ls : List Line) (k : ℤ)
      → shown (ls ++ l ∷ []) k
        ≡ (if eqb_ℤ (pos (length ls)) k then some (shown_line (length ls) l) else shown ls k)
  unfolding shown eqb_ℤ
  shown-append l ls (pos i) = shown_replaced l (length ls) i _ _ (get_elem?-append ls l i)
  shown-append l ls (negsuc i) = refl

  shown-set :
      (l : Line) (ls : List Line) (n : ℕ) (k : ℤ)
      → n < length ls
      → shown (set ls n l) k ≡ (if eqb_ℤ (pos n) k then some (shown_line n l) else shown ls k)
  unfolding shown eqb_ℤ
  shown-set l ls n (pos i) lt = shown_replaced l n i _ _ (get_elem?-set ls n l i lt)
  shown-set l ls n (negsuc i) lt = refl

  -- A line that is added has the number of the lines so far as its identifier.
  pub add_line_lem :
      (l : Line) (ls ls' : List Line)
      → add_line l ls ≡ some ls'
      → (length ls < max_objs)
        × (length ls' ≡ suc (length ls))
        × ((k : ℤ)
            → shown ls' k
              ≡ (if eqb_ℤ (pos (length ls)) k then some (shown_line (length ls) l) else shown ls k))
  unfolding add_line
  add_line_lem l ls ls' e = elim (Bool-cases (ltb (length ls) max_objs)) [
    | inl b ↦
        let same : ls ++ l ∷ [] ≡ ls' = some_unique _ _ (rw b at e) in
        (
          ground arith,
          ap length (sym same) ∙ length-append_one ls l,
          subst
              (λ x.
                (k : ℤ)
                → shown x k ≡ (
                    if eqb_ℤ (pos (length ls)) k
                    then some (shown_line (length ls) l)
                    else shown ls k))
              same (shown-append l ls),
        )
    | inr b ↦ absurd (none-ne-some ls' (rw b at e))
  ]

  -- A line that is edited is there, and keeps its author.
  pub edit_line_lem :
      (id : ℤ) (text : String) (ls ls' : List Line)
      → edit_line id text ls ≡ some ls'
      → (n : ℕ) × (l : Line) × (id ≡ pos n)
        × (n < length ls)
        × (length ls' ≡ length ls)
        × (shown ls id ≡ some (shown_line n l))
        × ((k : ℤ)
            → shown ls' k ≡ (if eqb_ℤ id k then some (shown_line n (l.0, text)) else shown ls k))
  unfolding edit_line shown
  edit_line_lem (pos n) text ls ls' e = elim (Option-cases (get_elem? ls n)) [
    | inl missing ↦ absurd (none-ne-some ls' (rw missing at e))
    | inr (l, found) ↦
        let same : set ls n (l.0, text) ≡ ls' = some_unique _ _ (rw found at e) in
        let lt = get_elem?-below ls n l found in
        (
          n,
          l,
          refl,
          lt,
          ap length (sym same) ∙ length-set ls n (l.0, text),
          rw found refl,
          subst
              (λ x.
                (k : ℤ)
                → shown x k
                  ≡ (if eqb_ℤ (pos n) k then some (shown_line n (l.0, text)) else shown ls k))
              same (λ k. shown-set (l.0, text) ls n k lt),
        )
  ]
  edit_line_lem (negsuc n) text ls ls' e = absurd (none-ne-some ls' e)
