-- ===== src/Fleet/Tests/SnmpTests.antt =====
-- A poll that misses the first account's interface, and a poll that sees its counter go on.
use steam_download_pumper.Common.{ℕ, ◌+◌, ◌≡◌, refl, none, some, [], ◌∷◌, arith, inl, inr}
use steam_download_pumper.Common.Text.{codes, text_eq, text_leb}
use steam_download_pumper.Fleet.Store.Rows.{
  Cursor, Store, find_cursor, put_cursor, accounts_of, prune,
}
use steam_download_pumper.Fleet.Store.Snmp.{
  SnmpInterface, matches, observe, missing_cursor, is_reset, next_cursor, record_account,
  record_accounts, record_snmp,
}
use steam_download_pumper.Fleet.Store.Snmp.Accounts.{Holds}
use steam_download_pumper.Fleet.Store.Snmp.Continuity.{
  IsContinuous, IsAligned, Follows, here, poll, Grows, measured-eq-counter,
}
use steam_download_pumper.Fleet.Tests.{
  exact, exact-IsProportional, cfg, morning, first_account, second_account, first_cursor, store,
}

abbrev interface : SnmpInterface
interface = record {
  index = 1;
  name = codes "pppoe1";
  alias = [];
  in_octets = 900;
  out_octets = 1700;
  discontinuity = none;
  oper_status = some 1;
}

abbrev one_minute : ℕ
one_minute = morning + 60000000

abbrev two_minutes : ℕ
two_minutes = morning + 120000000

abbrev missed_store : Store
missed_store = (record_snmp exact cfg [] one_minute none store).0

abbrev missed : Cursor
missed = missing_cursor (some first_cursor) one_minute

abbrev last_store : Store
last_store = (record_snmp exact cfg (interface ∷ []) two_minutes none missed_store).0

known_first : find_cursor (codes "a") store.cursors ≡ some first_cursor
unfolding find_cursor text_eq
known_first = refl

known_missed : find_cursor (codes "a") missed_store.cursors ≡ some missed
unfolding find_cursor text_eq record_snmp record_accounts record_account accounts_of put_cursor
    next_cursor prune observe matches text_leb
known_missed = refl

unseen_interface : observe (codes "pppoe1") [] ≡ none
unfolding observe matches
unseen_interface = refl

seen_interface : observe (codes "pppoe1") (interface ∷ []) ≡ some interface
unfolding observe matches text_eq
seen_interface = refl

goes_on : IsContinuous exact cfg missed interface two_minutes none
unfolding missing_cursor is_reset
goes_on = record { live = refl; no_reset = refl; plausible = refl; later = omega arith }

first-IsAligned : IsAligned exact cfg 28800000 first_cursor
first-IsAligned = record { in_window = omega arith; ordered = omega arith }

Holds-first : Holds first_account (accounts_of store)
unfolding accounts_of text_eq text_leb
Holds-first = record {
  before = [];
  rest = second_account ∷ [];
  split = refl;
  not_before = tt;
  not_after = (λ e. ground arith, tt);
}

history : Follows exact cfg first_account 28800000 store last_store
history =
    poll (interface ∷ []) two_minutes none missed
      (poll [] one_minute none first_cursor here known_first
        (inr (unseen_interface, omega arith), omega arith))
      known_missed (inl (interface, seen_interface, goes_on), omega arith)

measured-eq-counter_example : Grows exact cfg first_account 28800000 store first_cursor last_store
measured-eq-counter_example =
    measured-eq-counter exact cfg first_account 28800000 store last_store first_cursor
      exact-IsProportional Holds-first known_first first-IsAligned history
