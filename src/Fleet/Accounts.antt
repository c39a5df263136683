-- ===== src/Fleet/Accounts.antt =====
-- `parse_accounts_csv` of steam_pumper/fleet.py with `FleetAccount` and the constants it reads.
-- The records of the `csv` reader are its input; what `csv.DictReader` makes of them is modelled.
pub mod Unique
pub mod Complete
use steam_download_pumper.Common.{
  ℕ, zero, suc, ◌+◌, ◌≡◌, Bool, true, false, ◌&&◌, ◌||◌, not, Option, none, some, or_else, List, [],
  ◌∷◌, map, ltb, leb, ◌==◌, length, if◌then◌else◌, any_of,
}
use steam_download_pumper.Common.Text.{Text, codes, text_eq, text_in}
use steam_download_pumper.Common.Result.{Result, ok, err, ◌>>=◌, ◌>>◌, raise_if}
use steam_download_pumper.Fleet.Strings.{strip, lower, utf8_size, is_id_char, all_chars, is_ipv4}

pub record FleetAccount : Type 0 where
  pub account_id : Text
  pub bind_ip : Text
  pub snmp_interface : Text
  pub enabled : Bool

-- Where the source puts the row's number into the message, the error has it.
pub data CsvError : Type 0 where
  too_large bad_header no_account too_many : CsvError
  invalid_account_id bad_bind_ip invalid_interface invalid_enabled not_unique : ℕ → CsvError

abbrev pub max_accounts : ℕ
max_accounts = 256

abbrev required_fields : List Text
required_fields = codes "account_id" ∷ codes "bind_ip" ∷ codes "snmp_interface" ∷ []

abbrev pub csv_fields : List Text
csv_fields = codes "account_id" ∷ codes "bind_ip" ∷ codes "snmp_interface" ∷ codes "enabled" ∷ []

abbrev pub all_in : List Text → List Text → Bool
all_in [] bs = true
all_in (a ∷ as') bs = text_in a bs && all_in as' bs

-- `row.get(name)` of `DictReader`: the last column of that name counts, and a column beyond the
-- end of a short record is `None`.
unfoldable pub cell : Text → Option Text → List Text → List Text → Option Text
cell name found [] values = found
cell name found (f ∷ fs) [] = cell name (if text_eq f name then none else found) fs []
cell name found (f ∷ fs) (v ∷ vs) = cell name (if text_eq f name then some v else found) fs vs

-- `(row.get(name) or default).strip()`: an empty cell gives the default too.
unfoldable pub field_text : Text → Text → List Text → List Text → Text
unfolding cell strip
field_text name default fields values = elim (cell name none fields values) [
  | none ↦ strip default
  | some v ↦ if length v == 0 then strip default else strip v
]

abbrev pub true_words : List Text
true_words = codes "1" ∷ codes "true" ∷ codes "yes" ∷ codes "on" ∷ []

abbrev pub false_words : List Text
false_words = codes "0" ∷ codes "false" ∷ codes "no" ∷ codes "off" ∷ []

unfoldable pub valid_account_id : Text → Bool
valid_account_id s = not (length s == 0) && leb (length s) 128 && all_chars is_id_char s

unfoldable pub valid_interface : Text → Bool
valid_interface s = not (length s == 0) && leb (length s) 128 && not (any_of (λ c. c == 0) s)

-- The sets `ids`, `ips` and `interfaces` of the loop.
pub record Seen : Type 0 where
  pub ids : List Text
  pub ips : List Text
  pub interfaces : List Text

-- The body of the loop: the account of one row, checked against what was seen.
unfoldable pub parse_row : ℕ → Seen → List Text → List Text → Result CsvError FleetAccount
unfolding field_text lower
parse_row row_number seen fields values = do
  let account_id = field_text (codes "account_id") [] fields values
  let bind_ip = field_text (codes "bind_ip") [] fields values
  let interface = field_text (codes "snmp_interface") [] fields values
  let enabled_raw = lower (field_text (codes "enabled") (codes "true") fields values)
  raise_if (not (valid_account_id account_id)) (invalid_account_id row_number)
  raise_if (not (is_ipv4 bind_ip)) (bad_bind_ip row_number)
  raise_if (not (valid_interface interface)) (invalid_interface row_number)
  raise_if (not (text_in enabled_raw true_words || text_in enabled_raw false_words))
      (invalid_enabled row_number)
  raise_if
      (text_in account_id seen.ids || text_in bind_ip seen.ips || text_in interface seen.interfaces)
      (not_unique row_number)
  ok (record {
    account_id = account_id;
    bind_ip = bind_ip;
    snmp_interface = interface;
    enabled = text_in enabled_raw true_words;
  })

abbrev pub saw : FleetAccount → Seen → Seen
saw a seen = record {
  ids = a.account_id ∷ seen.ids;
  ips = a.bind_ip ∷ seen.ips;
  interfaces = a.snmp_interface ∷ seen.interfaces;
}

-- The loop over the records: `DictReader` passes over a record without cells.
unfoldable pub parse_rows :
    ℕ → Seen → List Text → List (List Text) → Result CsvError (List FleetAccount)
parse_rows row_number seen fields [] = ok []
parse_rows row_number seen fields ([] ∷ rows) = parse_rows row_number seen fields rows
parse_rows row_number seen fields ((v ∷ vs) ∷ rows) = do
  account ← parse_row row_number seen fields (v ∷ vs)
  accounts ← parse_rows (row_number + 1) (saw account seen) fields rows
  ok (account ∷ accounts)

abbrev pub unseen : Seen
unseen = record { ids = []; ips = []; interfaces = [] }

unfoldable pub check_header : List Text → Result CsvError (Unit {0})
check_header fields =
    raise_if (not (all_in required_fields fields && all_in fields csv_fields)) bad_header

unfoldable pub check_count : List FleetAccount → Result CsvError (List FleetAccount)
check_count accounts = do
  raise_if (length accounts == 0) no_account
  raise_if (ltb max_accounts (length accounts)) too_many
  ok accounts

unfoldable pub parse_records : List (List Text) → Result CsvError (List FleetAccount)
parse_records [] = err bad_header
parse_records (fields ∷ rows) = do
  check_header fields
  accounts ← parse_rows 2 unseen fields rows
  check_count accounts

-- `records` is the `csv` reader: it splits the payload into records of cells.
module _ (records : Text → List (List Text)) where
  unfoldable pub parse_accounts_csv : Text → Result CsvError (List FleetAccount)
  unfolding utf8_size
  parse_accounts_csv payload =
      raise_if (ltb 1048576 (utf8_size payload)) too_large >> parse_records (records payload)
