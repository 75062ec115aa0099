-- ===== src/App/UiModel/Tests.antt =====
-- src/app/UiModel.cpp on short texts.
use ipad_second_display.Common.{◌≡◌, ◌++◌, arith, refl, codes, []}
use ipad_second_display.App.UiModel.{
  is_ipv4, is_ipv4_from, before_dot, after_dot, octet_of, run_of, after_run, count_dots,
  redact_addresses_loop, redact_addresses, parse_device_entries_text,
}
use ipad_second_display.App.UiModel.Redaction.{redact_addresses-address}
use ipad_second_display.App.UiModel.Redaction.Address.{address}
use ipad_second_display.App.UiModel.Entries.{AllListed, parse_device_entries_text-AllListed}

hides_address : redact_addresses (codes "to 10.0.0.5:9000") ≡ codes "to <ip>:9000"
unfolding redact_addresses redact_addresses_loop run_of after_run count_dots is_ipv4 is_ipv4_from
    before_dot after_dot octet_of
hides_address = refl

-- The dot behind the address counts as a part of it.
keeps_address_before_dot : redact_addresses (codes "to 10.0.0.5.") ≡ codes "to 10.0.0.5."
unfolding redact_addresses redact_addresses_loop run_of after_run count_dots is_ipv4 is_ipv4_from
    before_dot after_dot octet_of
keeps_address_before_dot = refl

redact_addresses-address_example :
    redact_addresses (codes "to " ++ (address 10 0 0 255 ++ codes ":9000"))
    ≡ redact_addresses (codes "to ") ++ (codes "<ip>" ++ redact_addresses (codes ":9000"))
redact_addresses-address_example =
    redact_addresses-address (codes "to ") (codes ":9000") 10 0 0 255 (omega arith) (omega arith)
      (omega arith) (omega arith) refl refl

parse_device_entries_text-AllListed_example :
    AllListed 9000 []
      (parse_device_entries_text (λ text. text) (codes " 10.0.0.5 Desk\n10.0.0.5\n10.0.0.6") 9000)
parse_device_entries_text-AllListed_example =
    parse_device_entries_text-AllListed (λ text. text) (codes " 10.0.0.5 Desk\n10.0.0.5\n10.0.0.6")
      9000
