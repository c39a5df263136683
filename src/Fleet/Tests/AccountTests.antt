-- ===== src/Fleet/Tests/AccountTests.antt =====
-- `parse_accounts_csv` on a payload with one account, whose records are given.
use steam_download_pumper.Common.{◌≡◌, ◌≤◌, refl, List, [], ◌∷◌, arith}
use steam_download_pumper.Common.Text.{Text, codes, text_eq, text_in}
use steam_download_pumper.Common.Result.{ok, err}
use steam_download_pumper.Fleet.Strings.{
  lstrip, strip, is_space, lower, utf8_size, is_id_char, split_on, is_octet, is_ipv4,
}
use steam_download_pumper.Fleet.Accounts.{
  csv_fields, cell, field_text, valid_account_id, valid_interface, parse_row, parse_rows,
  check_header, check_count, parse_records, parse_accounts_csv, not_unique,
}
use steam_download_pumper.Fleet.Accounts.Unique.{IsInventory, parse_accounts_csv-IsInventory}
use steam_download_pumper.Fleet.Accounts.Complete.{to_row, IsTrimmed, parse_accounts_csv-to_row}
use steam_download_pumper.Fleet.Tests.{first_account}

abbrev records : Text → List (List Text)
records payload = csv_fields ∷ to_row first_account ∷ []

abbrev repeated : Text → List (List Text)
repeated payload = csv_fields ∷ to_row first_account ∷ to_row first_account ∷ []

accepted : parse_accounts_csv records (codes "csv") ≡ ok (first_account ∷ [])
unfolding text_eq text_in lstrip strip is_space lower utf8_size is_id_char split_on is_octet is_ipv4
    cell field_text valid_account_id valid_interface parse_row parse_rows check_header check_count
    parse_records parse_accounts_csv
accepted = refl

refused : parse_accounts_csv repeated (codes "csv") ≡ err (not_unique 3)
unfolding text_eq text_in lstrip strip is_space lower utf8_size is_id_char split_on is_octet is_ipv4
    cell field_text valid_account_id valid_interface parse_row parse_rows check_header check_count
    parse_records parse_accounts_csv
refused = refl

parse_accounts_csv-IsInventory_example : IsInventory (first_account ∷ [])
parse_accounts_csv-IsInventory_example =
    parse_accounts_csv-IsInventory records (codes "csv") accepted

first-IsTrimmed : IsTrimmed first_account
unfolding lstrip strip is_space
first-IsTrimmed = record { id_trimmed = refl; ip_trimmed = refl; interface_trimmed = refl }

small : utf8_size (codes "csv") ≤ 1048576
unfolding utf8_size
small = omega arith

parse_accounts_csv-to_row_example :
    parse_accounts_csv records (codes "csv") ≡ ok (first_account ∷ [])
parse_accounts_csv-to_row_example =
    parse_accounts_csv-to_row records (codes "csv") (first_account ∷ []) small refl
      parse_accounts_csv-IsInventory_example (first-IsTrimmed, tt)
