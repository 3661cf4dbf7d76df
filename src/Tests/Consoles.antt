-- ===== src/Tests/Consoles.antt =====
-- The theorems on the console at a user who types a few lines.
use Prim.Native.String.{String}
use auto_sync_gen.Prelude.{
  ℕ, ◌≤◌, ℤ, pos, ◌≡◌, refl, Bool, if◌then◌else◌, List, [], ◌∷◌, ◌++◌, length, Option, none, some,
  true, false, arith, eqb_ℤ,
}
use auto_sync_gen.Result.{ok}
use auto_sync_gen.Json.{assoc}
use auto_sync_gen.Session.{Datagram, new_host}
use auto_sync_gen.Client.{new_client}
use auto_sync_gen.Chat.{chat_types}
use auto_sync_gen.Chat.Menu.{new_message, show_data, disconnect, ChatClient}
use auto_sync_gen.Chat.Console.{
  Console, UnsetTemp, server_role, select_role, client_settings, get_input_ip, get_input_port,
  safe_cin,
}
use auto_sync_gen.Chat.Console.Reads.{
  selection, ConsoleLaws, select_role_lem, new_message_lines, disconnect_line, show_data_line,
}
use auto_sync_gen.Chat.Console.Menus.{select_client, play}
use auto_sync_gen.Chat.Console.Played.{EntersAll, select_client_lem}
use auto_sync_gen.Tests.JsonModel.{tree_json}
use auto_sync_gen.Tests.Setup.{ssvu, messages}
use auto_sync_gen.Tests.Packets.{packets}
use auto_sync_gen.Tests.Chats.{chat}

-- A standard input: whether it has failed, and the lines that are left.
record Typed : Type 0 where
  pub stuck : Bool
  pub rest : List (List String)

abbrev typed : List (List String) → Typed
typed ls = record { stuck = false; rest = ls }

number_of : String → Option ℤ
number_of t =
    assoc t (("0", pos 0) ∷ ("1", pos 1) ∷ ("2", pos 2) ∷ ("3", pos 3) ∷ ("4", pos 4) ∷ [])

abbrev or_zero : Option ℤ → ℤ
or_zero none = pos 0
or_zero (some n) = n

abbrev is_missing : Option ℤ → Bool
is_missing none = true
is_missing (some n) = false

-- A word that is no number stays where it is, and the input fails.
abbrev left_of : Option ℤ → String → List String → List String
left_of none t ts = t ∷ ts
left_of (some n) t ts = ts

int_at : ℤ → List (List String) → ℤ × Typed
int_at temp ((t ∷ ts) ∷ ls) = (
  or_zero (number_of t),
  record { stuck = is_missing (number_of t); rest = left_of (number_of t) t ts ∷ ls },
)
int_at temp ls = (temp, record { stuck = true; rest = ls })

int_in : ℤ → Typed → ℤ × Typed
int_in temp i = if i.stuck then (temp, i) else int_at temp i.rest

text_at : String → List (List String) → String × Typed
text_at temp ((t ∷ ts) ∷ ls) = (t, typed (ts ∷ ls))
text_at temp ls = (temp, record { stuck = true; rest = ls })

text_in : String → Typed → String × Typed
text_in temp i = if i.stuck then (temp, i) else text_at temp i.rest

after_line : List (List String) → List (List String)
after_line [] = []
after_line (l ∷ ls) = ls

ignored : Typed → Typed
ignored i = if i.stuck then i else record i { rest = after_line i.rest }

abbrev console : Console ℕ
console = record {
  In = Typed;
  get_int = int_in;
  get_port = λ temp i. (temp, i);
  get_text = text_in;
  get_ip = λ temp i. (temp, i);
  clear = λ i. record i { stuck = false };
  ignore_line = λ n i. ignored i;
}

left_of-width :
    (n : Option ℤ) (t : String) (ts : List String) → length (left_of n t ts) ≤ length (t ∷ ts)
left_of-width none t ts = omega arith
left_of-width (some n) t ts = omega arith

console_laws : ConsoleLaws ℕ console
unfolding int_in int_at text_in text_at ignored after_line
console_laws = record {
  lines = λ i. i.rest;
  failed = λ i. i.stuck;
  width = length;
  width_rest = λ t ts. omega arith;
  value = λ t. or_zero (number_of t);
  fails = λ t. is_missing (number_of t);
  get_int_lem = λ temp i t ts ls fine e. (
    record { stuck = is_missing (number_of t); rest = left_of (number_of t) t ts ∷ ls },
    left_of (number_of t) t ts,
    rw (fine, e) refl,
    refl,
    refl,
    left_of-width (number_of t) t ts,
  );
  get_text_lem = λ temp i t ts ls fine e. (typed (ts ∷ ls), rw (fine, e) refl, refl, refl);
  get_int-failed = λ temp i stuck. rw stuck refl;
  get_text-failed = λ temp i stuck. rw stuck refl;
  ignore_line-failed = λ n i stuck. rw stuck refl;
  failed-clear = λ i. refl;
  lines-clear = λ i. refl;
  ignore_line_lem = λ n i l ls fine e short. (rw fine refl, rw (fine, e) refl);
}

abbrev temps : UnsetTemp ℕ
temps = record { int = pos 9; port = 9; ip = 0 }

four_is_none : selection ℕ console console_laws temps (or_zero (number_of "4")) ≡ none
unfolding number_of assoc eqb_ℤ
four_is_none = refl

hello_is_server :
    selection ℕ console console_laws temps (or_zero (number_of "hello")) ≡ some (some server_role)
unfolding number_of assoc eqb_ℤ
hello_is_server = refl

abbrev role_lines : List (List String)
role_lines = ("4" ∷ []) ∷ ("hello" ∷ "there" ∷ []) ∷ ("0" ∷ []) ∷ []

-- Text without a number is read as zero, and the next read finds the next line.
select_role_lem_example :
    (j : Typed) × (select_role ℕ console temps 2 (typed role_lines) ≡ some (some server_role, j))
    × ((j.stuck ≡ false) × (j.rest ≡ ("0" ∷ []) ∷ []))
unfolding console_laws
select_role_lem_example =
    select_role_lem ℕ console console_laws temps (("4" ∷ []) ∷ []) (typed role_lines) 2 "hello"
      ("there" ∷ []) (("0" ∷ []) ∷ []) (some server_role) (refl, refl)
      (four_is_none, omega arith, tt) (omega arith) hello_is_server (omega arith)

abbrev Chatter : Type 0
Chatter = ChatClient tree_json chat messages packets ℕ ssvu

new_chatter :
    (c : Chatter) × (new_client tree_json packets ℕ
        (chat_types tree_json chat messages packets ℕ ssvu)
        9
        27016
        true
        127
        27015
      ≡ ok c)
unfolding new_client new_host
new_chatter = (_, refl)

abbrev entered : List (List String)
entered = ("0" ∷ []) ∷ ("hi" ∷ "there" ∷ []) ∷ ("2" ∷ []) ∷ ("3" ∷ []) ∷ []

abbrev turns : List (Chatter → Chatter)
turns = (λ c. record c { cid = pos 0 }) ∷ (λ c. c) ∷ (λ c. c) ∷ []

entered_lines :
    EntersAll tree_json chat messages packets ℕ ssvu console console_laws temps
      (new_message "hi" ∷ show_data ∷ [])
      entered
unfolding number_of assoc console_laws
entered_lines = (
  refl,
  _,
  new_message_lines "0" "hi" [] ("there" ∷ []) _ refl (omega arith) (omega arith),
  (
    refl,
    _,
    show_data_line "2" [] _ refl (omega arith),
    (_, disconnect_line "3" [] [] refl (omega arith)),
  ),
)

abbrev typed_settings : List (List String)
typed_settings = ("0" ∷ []) ∷ ("0" ∷ []) ∷ ("0" ∷ []) ∷ ("ann" ∷ "lee" ∷ []) ∷ []

-- A user who enters zero takes the defaults; of the name only the first word is kept.
default_settings : client_settings ℕ console temps 127 (typed (typed_settings ++ entered)) ≡ (
  record { port = 27016; server_ip = 127; server_port = 27015; client_name = "ann" },
  typed entered,
)
unfolding client_settings get_input_port get_input_ip safe_cin int_in int_at text_in text_at ignored
    after_line number_of assoc eqb_ℤ
default_settings = refl

select_client_lem_example :
    (select_client tree_json chat messages packets ℕ ssvu console temps 127 9 true turns
        (typed (typed_settings ++ entered))
      ≡ some (
          play tree_json chat messages packets ℕ ssvu "ann"
            (new_message "hi" ∷ show_data ∷ disconnect ∷ [])
            turns
            new_chatter.0))
    × ((c : Chatter) (out : List (Datagram tree_json packets ℕ))
        → play tree_json chat messages packets ℕ ssvu "ann"
            (new_message "hi" ∷ show_data ∷ disconnect ∷ [])
            turns
            new_chatter.0
          ≡ ok (c, out)
        → c.host.busy ≡ false)
unfolding console_laws
select_client_lem_example =
    select_client_lem tree_json chat messages packets ℕ ssvu console console_laws temps 127 9 true
      (record { port = 27016; server_ip = 127; server_port = 27015; client_name = "ann" })
      (new_message "hi" ∷ show_data ∷ []) entered turns (typed (typed_settings ++ entered))
      (typed entered) new_chatter.0 default_settings new_chatter.1 (refl, refl) entered_lines
      ((λ c h. h), ((λ c h. h), ((λ c h. h), tt))) (omega arith)
