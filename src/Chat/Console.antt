-- ===== src/Chat/Console.antt =====
-- Src/main.cpp: `safeCin`, and what the `ConsoleSessionController` reads with it. What it writes on
-- the console is left out.
pub mod Reads
pub mod Menus
pub mod Played
pub mod Shutdown
use Prim.Native.String.{String}
use auto_sync_gen.Prelude.{
  ℕ, zero, suc, ℤ, pos, Bool, true, false, Option, none, some, if◌then◌else◌, eqb_ℤ,
}
use auto_sync_gen.Chat.Menu.{Choice, new_message, edit_message, show_data, disconnect, other}

-- The standard input: `operator>>` into a variable that holds a value, `clear`, and `ignore` of at most
-- a number of characters up to the end of the line.
pub record Console (IpAddress : Type 0) : Type 1 where
  pub In : Type 0
  pub get_int : ℤ → In → ℤ × In
  pub get_port : ℕ → In → ℕ × In
  pub get_text : String → In → String × In
  pub get_ip : IpAddress → In → IpAddress × In
  pub clear : In → In
  pub ignore_line : ℕ → In → In

-- What `T temp` holds: an uninitialised number, or what the constructor of an address makes.
pub record UnsetTemp (IpAddress : Type 0) : Type 0 where
  pub int : ℤ
  pub port : ℕ
  pub ip : IpAddress

pub data Role : Type 0 where
  server_role client_role : Role

-- What `selectClient` asks for before it makes the client.
pub record ClientSettings (IpAddress : Type 0) : Type 0 where
  pub port : ℕ
  pub server_ip : IpAddress
  pub server_port : ℕ
  pub client_name : String

module _ (IpAddress : Type 0) (K : Console IpAddress) (u : UnsetTemp IpAddress) where
  unfoldable pub safe_cin : {A : Type 0} → (A → K.In → A × K.In) → A → K.In → A × K.In
  safe_cin get temp i = let (x, j) = get temp i in (x, K.ignore_line 10000 (K.clear j))

  abbrev pub safe_int : K.In → ℤ × K.In
  safe_int = safe_cin K.get_int u.int

  abbrev pub safe_text : K.In → String × K.In
  safe_text = safe_cin K.get_text ""

  -- The rounds of `selectRole`, with what is chosen: `none` for the exit.
  unfoldable pub select_role : ℕ → K.In → Option (Option Role × K.In)
  select_role zero i = none
  select_role (suc n) i =
      let (choice, j) = safe_int i in
      let again = select_role n j in
      if eqb_ℤ choice (pos 0)
      then some (some server_role, j)
      else (if eqb_ℤ choice (pos 1)
          then some (some client_role, j)
          else (if eqb_ℤ choice (pos 2) then some (none, j) else again))

  abbrev pub get_choice : K.In → ℤ × K.In
  get_choice = safe_int

  unfoldable pub get_input_ip : IpAddress → K.In → IpAddress × K.In
  get_input_ip default i =
      let (choice, j) = get_choice i in
      if eqb_ℤ choice (pos 0) then (default, j) else safe_cin K.get_ip u.ip j

  unfoldable pub get_input_port : ℕ → K.In → ℕ × K.In
  get_input_port default i =
      let (choice, j) = get_choice i in
      if eqb_ℤ choice (pos 0) then (default, j) else safe_cin K.get_port u.port j

  -- The port that `selectServer` asks for.
  abbrev pub server_port_input : K.In → ℕ × K.In
  server_port_input = get_input_port 27015

  -- `local` is the address 127.0.0.1.
  unfoldable pub client_settings : IpAddress → K.In → ClientSettings IpAddress × K.In
  client_settings local i =
      let (port, i1) = get_input_port 27016 i in
      let (server_ip, i2) = get_input_ip local i1 in
      let (server_port, i3) = get_input_port 27015 i2 in
      let (client_name, i4) = safe_text i3 in
      (
        record {
          port = port;
          server_ip = server_ip;
          server_port = server_port;
          client_name = client_name;
        },
        i4,
      )

  -- What a round of the client's menu reads.
  unfoldable pub read_choice : K.In → Choice × K.In
  read_choice i =
      let (choice, j) = safe_int i in
      if eqb_ℤ choice (pos 0)
      then (let (msg, j1) = safe_text j in (new_message msg, j1))
      else (if eqb_ℤ choice (pos 1)
          then (let (id, j1) = safe_int j in
              let (msg, j2) = safe_text j1 in (edit_message id msg, j2))
          else (if eqb_ℤ choice (pos 2)
              then (show_data, j)
              else (if eqb_ℤ choice (pos 3) then (disconnect, j) else (other choice, j))))
