-- ===== src/Fleet/Accounts/Unique.antt =====
-- What an accepted account inventory satisfies, whatever the payload (`parse_accounts_csv`).
use steam_download_pumper.Common.{
  ℕ, ◌+◌, ◌≤◌, ◌≡◌, ◌≢◌, true, false, List, [], ◌∷◌, length, All, All-map, arith, subst, sym,
}
use steam_download_pumper.Common.Text.{Text, text_in, text_eq_iff}
use steam_download_pumper.Common.Result.{ok, >>=-eq-ok, ok-injective, >>-eq-ok}
use steam_download_pumper.Fleet.Strings.{is_ipv4}
use steam_download_pumper.Fleet.Accounts.{
  FleetAccount, Seen, valid_account_id, valid_interface, parse_row, parse_rows, saw, parse_records,
  parse_accounts_csv, unseen, check_header, check_count,
}

-- No two of the accounts agree in the field that `key` reads.
abbrev pub Distinct : (FleetAccount → Text) → List FleetAccount → Type 0
Distinct key [] = Unit
Distinct key (a ∷ as') = All (λ b. key a ≢ key b) as' × Distinct key as'

-- The fields of one account are well formed.
pub record IsAccount (a : FleetAccount) : Type 0 where
  pub id_valid : valid_account_id a.account_id ≡ true
  pub ip_valid : is_ipv4 a.bind_ip ≡ true
  pub interface_valid : valid_interface a.snmp_interface ≡ true

pub record IsInventory (accounts : List FleetAccount) : Type 0 where
  pub each : All IsAccount accounts
  pub ids : Distinct (λ a. a.account_id) accounts
  pub ips : Distinct (λ a. a.bind_ip) accounts
  pub interfaces : Distinct (λ a. a.snmp_interface) accounts
  pub some_account : 1 ≤ length accounts
  pub at_most : length accounts ≤ 256

-- An account that none of the sets of the loop knows.
abbrev pub IsFresh : Seen → FleetAccount → Type 0
IsFresh seen a =
    (text_in a.account_id seen.ids ≡ false)
    × (text_in a.bind_ip seen.ips ≡ false)
    × (text_in a.snmp_interface seen.interfaces ≡ false)

abbrev pub AllFresh : Seen → List FleetAccount → Type 0
AllFresh seen [] = Unit
AllFresh seen (a ∷ as') = IsAccount a × IsFresh seen a × AllFresh (saw a seen) as'

parse_row-IsFresh :
    (n : ℕ) (seen : Seen) (fields values : List Text) {a : FleetAccount}
    → parse_row n seen fields values ≡ ok a
    → IsAccount a × IsFresh seen a
unfolding parse_row
parse_row-IsFresh n seen fields values h = ground arith

parse_rows-AllFresh :
    (n : ℕ) (seen : Seen) (fields : List Text) (rows : List (List Text)) {as' : List FleetAccount}
    → parse_rows n seen fields rows ≡ ok as'
    → AllFresh seen as'
unfolding parse_rows
parse_rows-AllFresh n seen fields [] h = subst (AllFresh seen) (ok-injective h) tt
parse_rows-AllFresh n seen fields ([] ∷ rows) h = parse_rows-AllFresh n seen fields rows h
parse_rows-AllFresh n seen fields ((v ∷ vs) ∷ rows) h =
    let (a, parsed, more) = >>=-eq-ok (parse_row n seen fields (v ∷ vs)) _ h in
    let (as', rest, whole) = >>=-eq-ok (parse_rows (n + 1) (saw a seen) fields rows) _ more in
    let (valid, fresh) = parse_row-IsFresh n seen fields (v ∷ vs) parsed in
    subst (AllFresh seen) (ok-injective whole)
      (valid, fresh, parse_rows-AllFresh (n + 1) (saw a seen) fields rows rest)

-- What is new to the loop after `a` is new to it before, and is not the field of `a`.
text_in-cons :
    (x y : Text) (ys : List Text) → text_in x (y ∷ ys) ≡ false → (y ≢ x) × (text_in x ys ≡ false)
unfolding text_in
text_in-cons x y ys h = (λ e. ground (arith, text_eq_iff x y, sym e), ground arith)

AllFresh-IsFresh :
    (seen : Seen) (as' : List FleetAccount) → AllFresh seen as' → All (IsFresh seen) as'
AllFresh-IsFresh seen [] h = tt
AllFresh-IsFresh seen (a ∷ as') h = (
  h.1,
  All-map (IsFresh (saw a seen)) (IsFresh seen) as'
      (λ b f. (
        (text_in-cons b.account_id a.account_id seen.ids f.0).1,
        (text_in-cons b.bind_ip a.bind_ip seen.ips f.1).1,
        (text_in-cons b.snmp_interface a.snmp_interface seen.interfaces f.2).1,
      ))
      (AllFresh-IsFresh (saw a seen) as' h.2),
)

AllFresh-IsAccount : (seen : Seen) (as' : List FleetAccount) → AllFresh seen as' → All IsAccount as'
AllFresh-IsAccount seen [] h = tt
AllFresh-IsAccount seen (a ∷ as') h = (h.0, AllFresh-IsAccount (saw a seen) as' h.2)

AllFresh-Distinct :
    (key : FleetAccount → Text) (known : Seen → List Text)
    → ((seen : Seen) (a b : FleetAccount) → IsFresh (saw a seen) b → key a ≢ key b)
    → (seen : Seen) (as' : List FleetAccount) → AllFresh seen as'
    → Distinct key as'
AllFresh-Distinct key known apart seen [] h = tt
AllFresh-Distinct key known apart seen (a ∷ as') h = (
  All-map (IsFresh (saw a seen)) (λ b. key a ≢ key b) as' (apart seen a)
      (AllFresh-IsFresh (saw a seen) as' h.2),
  AllFresh-Distinct key known apart (saw a seen) as' h.2,
)

AllFresh-IsInventory :
    (as' : List FleetAccount)
    → AllFresh unseen as'
    → 1 ≤ length as'
    → length as' ≤ 256
    → IsInventory as'
AllFresh-IsInventory as' h some_account at_most = record {
  each = AllFresh-IsAccount unseen as' h;
  ids =
      AllFresh-Distinct _ (λ s. s.ids)
        (λ seen a b f. (text_in-cons b.account_id a.account_id seen.ids f.0).0) unseen as' h;
  ips =
      AllFresh-Distinct _ (λ s. s.ips)
        (λ seen a b f. (text_in-cons b.bind_ip a.bind_ip seen.ips f.1).0) unseen as' h;
  interfaces =
      AllFresh-Distinct _ (λ s. s.interfaces)
        (λ seen a b f. (text_in-cons b.snmp_interface a.snmp_interface seen.interfaces f.2).0)
        unseen as' h;
  some_account = some_account;
  at_most = at_most;
}

check_count-eq-ok :
    (as' : List FleetAccount) {bs : List FleetAccount}
    → check_count as' ≡ ok bs
    → (as' ≡ bs) × (1 ≤ length as') × (length as' ≤ 256)
unfolding check_count
check_count-eq-ok as' h = ground arith

parse_records-IsInventory :
    (rows : List (List Text)) {as' : List FleetAccount}
    → parse_records rows ≡ ok as'
    → IsInventory as'
unfolding parse_records
parse_records-IsInventory [] h = cc
parse_records-IsInventory (fields ∷ rows) h =
    let checked = >>-eq-ok (check_header fields) _ h in
    let (as', parsed, counted) = >>=-eq-ok (parse_rows 2 unseen fields rows) check_count checked in
    let (same, some_account, at_most) = check_count-eq-ok as' counted in
    subst IsInventory same (
      AllFresh-IsInventory as' (parse_rows-AllFresh 2 unseen fields rows parsed) some_account
        at_most)

-- Every payload that is accepted gives 1 to 256 accounts with valid fields, no two of which share
-- the account id, the source address or the SNMP interface.
pub parse_accounts_csv-IsInventory :
    (records : Text → List (List Text)) (payload : Text) {as' : List FleetAccount}
    → parse_accounts_csv records payload ≡ ok as'
    → IsInventory as'
unfolding parse_accounts_csv
parse_accounts_csv-IsInventory records payload h =
    parse_records-IsInventory (records payload) (ground arith)
