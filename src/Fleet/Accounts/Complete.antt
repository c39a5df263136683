-- ===== src/Fleet/Accounts/Complete.antt =====
-- A well-formed inventory that is written as CSV records is read back as it was
-- (`parse_accounts_csv`).
use steam_download_pumper.Common.{
  ℕ, ◌+◌, ◌≤◌, ◌≡◌, refl, ◌≢◌, true, false, List, [], ◌∷◌, map, length, All, arith, ◌||◌,
  if◌then◌else◌, ◌==◌,
}
use steam_download_pumper.Common.Text.{Text, codes, text_eq, text_in, text_eq_iff}
use steam_download_pumper.Common.Result.{ok}
use steam_download_pumper.Fleet.Strings.{strip, lower, utf8_size}
use steam_download_pumper.Fleet.Accounts.{
  FleetAccount, Seen, field_text, parse_row, parse_rows, saw, check_header, check_count,
  parse_records, parse_accounts_csv, unseen, csv_fields, true_words, false_words,
}
use steam_download_pumper.Fleet.Accounts.Unique.{
  Distinct, IsAccount, IsInventory, IsFresh, AllFresh,
}

-- The record that stands for an account.
abbrev pub to_row : FleetAccount → List Text
to_row a =
    a.account_id
    ∷ a.bind_ip
    ∷ a.snmp_interface
    ∷ (if a.enabled then codes "true" else codes "false")
    ∷ []

-- No field begins or ends with a space.
pub record IsTrimmed (a : FleetAccount) : Type 0 where
  pub id_trimmed : strip a.account_id ≡ a.account_id
  pub ip_trimmed : strip a.bind_ip ≡ a.bind_ip
  pub interface_trimmed : strip a.snmp_interface ≡ a.snmp_interface

text_in_cons :
    (x y : Text) (ys : List Text) → y ≢ x → text_in x ys ≡ false → text_in x (y ∷ ys) ≡ false
unfolding text_in
text_in_cons x y ys ne h = ground (arith, text_eq_iff x y)

-- `(cell or "").strip()` of a trimmed cell.
trimmed_cell : (s : Text) → strip s ≡ s → (if length s == 0 then [] else strip s) ≡ s
trimmed_cell [] h = refl
trimmed_cell (c ∷ cs) h = ground arith

-- A field of the row, read through `DictReader`, is the field of the account.
fields_of_row :
    (a : FleetAccount)
    → IsTrimmed a
    → (field_text (codes "account_id") [] csv_fields (to_row a) ≡ a.account_id)
      × (field_text (codes "bind_ip") [] csv_fields (to_row a) ≡ a.bind_ip)
      × (field_text (codes "snmp_interface") [] csv_fields (to_row a) ≡ a.snmp_interface)
unfolding field_text text_eq
fields_of_row a t = (
  trimmed_cell a.account_id t.id_trimmed,
  trimmed_cell a.bind_ip t.ip_trimmed,
  trimmed_cell a.snmp_interface t.interface_trimmed,
)

abbrev enabled_text : FleetAccount → Text
enabled_text a = lower (field_text (codes "enabled") (codes "true") csv_fields (to_row a))

enabled_of_row :
    (a : FleetAccount)
    → (text_in (enabled_text a) true_words ≡ a.enabled)
      × ((text_in (enabled_text a) true_words || text_in (enabled_text a) false_words) ≡ true)
unfolding field_text text_eq lower text_in
enabled_of_row a =
    elim (a.enabled)
      as (λ b.
        (text_in
            (lower (
              field_text (codes "enabled") (codes "true") csv_fields
                (to_row (record a { enabled = b }))))
            true_words
          ≡ b)
        × ((text_in
                (lower (
                  field_text (codes "enabled") (codes "true") csv_fields
                    (to_row (record a { enabled = b }))))
                true_words
              || text_in
                  (lower (
                    field_text (codes "enabled") (codes "true") csv_fields
                      (to_row (record a { enabled = b }))))
                  false_words)
            ≡ true)) [ true ↦ (refl, refl) | false ↦ (refl, refl) ]

parse_row-to_row :
    (n : ℕ) (seen : Seen) (a : FleetAccount)
    → IsAccount a
    → IsTrimmed a
    → IsFresh seen a
    → parse_row n seen csv_fields (to_row a) ≡ ok a
unfolding parse_row
parse_row-to_row n seen a v t f = ground (arith, fields_of_row a t, enabled_of_row a)

parse_rows-to_row :
    (n : ℕ) (seen : Seen) (as' : List FleetAccount)
    → AllFresh seen as'
    → All IsTrimmed as'
    → parse_rows n seen csv_fields (map to_row as') ≡ ok as'
unfolding parse_rows
parse_rows-to_row n seen [] h t = refl
parse_rows-to_row n seen (a ∷ as') h t =
    rw (parse_row-to_row n seen a h.0 t.0 h.1, parse_rows-to_row (n + 1) (saw a seen) as' h.2 t.1)
      refl

saw-IsFresh :
    (seen : Seen) (a : FleetAccount) (bs : List FleetAccount)
    → All (λ b. a.account_id ≢ b.account_id) bs
    → All (λ b. a.bind_ip ≢ b.bind_ip) bs
    → All (λ b. a.snmp_interface ≢ b.snmp_interface) bs
    → All (IsFresh seen) bs
    → All (IsFresh (saw a seen)) bs
saw-IsFresh seen a [] i p s f = tt
saw-IsFresh seen a (b ∷ bs) i p s f = (
  (
    text_in_cons b.account_id a.account_id seen.ids i.0 f.0.0,
    text_in_cons b.bind_ip a.bind_ip seen.ips p.0 f.0.1,
    text_in_cons b.snmp_interface a.snmp_interface seen.interfaces s.0 f.0.2,
  ),
  saw-IsFresh seen a bs i.1 p.1 s.1 f.1,
)

Distinct-AllFresh :
    (seen : Seen) (as' : List FleetAccount)
    → All IsAccount as'
    → Distinct (λ a. a.account_id) as'
    → Distinct (λ a. a.bind_ip) as'
    → Distinct (λ a. a.snmp_interface) as'
    → All (IsFresh seen) as'
    → AllFresh seen as'
Distinct-AllFresh seen [] v i p s f = tt
Distinct-AllFresh seen (a ∷ as') v i p s f = (
  v.0,
  f.0,
  Distinct-AllFresh (saw a seen) as' v.1 i.1 p.1 s.1 (saw-IsFresh seen a as' i.0 p.0 s.0 f.1),
)

unseen-IsFresh : (as' : List FleetAccount) → All (IsFresh unseen) as'
unfolding text_in
unseen-IsFresh [] = tt
unseen-IsFresh (a ∷ as') = ((refl, refl, refl), unseen-IsFresh as')

check_count_keeps :
    (as' : List FleetAccount) → 1 ≤ length as' → length as' ≤ 256 → check_count as' ≡ ok as'
unfolding check_count
check_count_keeps as' h k = ground arith

csv_fields_accepted : check_header csv_fields ≡ ok tt
unfolding check_header text_in text_eq
csv_fields_accepted = refl

parse_records-to_row :
    (as' : List FleetAccount)
    → IsInventory as'
    → All IsTrimmed as'
    → parse_records (csv_fields ∷ map to_row as') ≡ ok as'
unfolding parse_records
parse_records-to_row as' v t =
    rw
      (
        csv_fields_accepted,
        parse_rows-to_row 2 unseen as'
            (Distinct-AllFresh unseen as' v.each v.ids v.ips v.interfaces (unseen-IsFresh as')) t,
      )
      (check_count_keeps as' v.some_account v.at_most)

-- A payload of at most 1 MiB whose CSV records are the four-column header and one record for each
-- account of a well-formed inventory with trimmed fields is accepted, and gives those accounts
-- in that order.
pub parse_accounts_csv-to_row :
    (records : Text → List (List Text)) (payload : Text) (as' : List FleetAccount)
    → utf8_size payload ≤ 1048576
    → records payload ≡ csv_fields ∷ map to_row as'
    → IsInventory as'
    → All IsTrimmed as'
    → parse_accounts_csv records payload ≡ ok as'
unfolding parse_accounts_csv
parse_accounts_csv-to_row records payload as' small e v t =
    rw e (ground (arith, parse_records-to_row as' v t))
