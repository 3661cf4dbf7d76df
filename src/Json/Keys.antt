-- ===== src/Json/Keys.antt =====
-- The texts of identifiers and of field indices as keys: they are told apart, from each other and
-- from the key of the flags.
use text.Mathlib.Text.{◌==◌ as str_eq}
use text.Mathlib.TextEquality.{eq_iff}
use auto_sync_gen.Prelude.{
  ℕ, ℤ, pos, ◌≡◌, sym, ap, ◌∙◌, false, eqb_ℤ, eqb_ℤ_iff, eqb-pos, ◌==◌, arith,
}
use auto_sync_gen.Result.{ok}
use auto_sync_gen.Json.{Json, JsonLaws}

pub ok-injective {ℓ} : {A : Type ℓ} (a b : A) → ok a ≡ ok b → a ≡ b
ok-injective a b h = cc

module _ (J : Json) (W : JsonLaws J) where
  pub to_str-injective : (a b : ℤ) → J.to_str a ≡ J.to_str b → a ≡ b
  to_str-injective a b h =
      ok-injective a b (sym (W.s_to_int-to_str a) ∙ ap J.s_to_int h ∙ W.s_to_int-to_str b)

  pub str_eq-to_str : (a b : ℤ) → str_eq (J.to_str a) (J.to_str b) ≡ eqb_ℤ a b
  str_eq-to_str a b =
      ground (arith, eq_iff (J.to_str a) (J.to_str b), eqb_ℤ_iff a b, to_str-injective a b)

  pub str_eq-field_key : (i j : ℕ) → str_eq (J.to_str (pos i)) (J.to_str (pos j)) ≡ (i == j)
  str_eq-field_key i j = str_eq-to_str (pos i) (pos j) ∙ eqb-pos i j

  pub str_eq-ff : (i : ℤ) → str_eq (J.to_str i) "ff" ≡ false
  str_eq-ff i = ground (arith, eq_iff (J.to_str i) "ff", W.to_str-ne-ff i)

  pub str_eq-ff' : (i : ℤ) → str_eq "ff" (J.to_str i) ≡ false
  str_eq-ff' i = ground (arith, eq_iff "ff" (J.to_str i), W.to_str-ne-ff i)
