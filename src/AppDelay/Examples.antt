-- ===== src/AppDelay/Examples.antt =====
-- Keys and overrides at concrete inputs.
use skey.Base.{◌≡◌, refl, some, codes, bytes_eq, pos, negsuc, c_str}
use skey.Base.Decimal.{strtol}
use skey.AppDelay.{AppDelayOverride, cut_comma, parse_field, last_field, parse_app_delay_override}

abbrev slow : AppDelayOverride
slow = record { pace_ms = pos 5; pre_commit_ms = negsuc 0; post_commit_ms = pos 300 }

reads_clamped :
    parse_app_delay_override (codes "5,30,900")
    ≡ some (record { pace_ms = pos 5; pre_commit_ms = pos 30; post_commit_ms = pos 500 })
unfolding parse_app_delay_override cut_comma parse_field last_field strtol c_str bytes_eq
reads_clamped = refl
