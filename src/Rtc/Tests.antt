-- ===== src/Rtc/Tests.antt =====
-- The driver's state after `rtc_open`, and buffers with a frequency.
use ece391_mp.Prelude.{◌/◌, ◌≡◌, refl, true, arith, ◌==◌, if◌then◌else◌, none, some}
use ece391_mp.Prelude.Memory.{Memory}
use ece391_mp.Rtc.{Rtc, tick, rtc_write, rtc_read}
use ece391_mp.Rtc.Write.{is_listed, least_frequency_faults}
use ece391_mp.Rtc.Tick.{count_raised, count_raised_lem}
use ece391_mp.Rtc.Read.{Returned, rtc_read_returns}

abbrev opened : Rtc
opened = record { ir_flag = 0; clk = 0; virtual_freq = 2 }

abbrev off : Rtc
off = record { ir_flag = 0; clk = 0; virtual_freq = 0 }

abbrev eight : Memory
eight a = if a == 100 then 8 else 0

abbrev least : Memory
least a = if a == 103 then 0x80 else 0

least_frequency_faults_example :
    ((rtc_write opened least 100 4).1 ≡ 4) × (tick (rtc_write opened least 100 4).0 ≡ none)
least_frequency_faults_example = least_frequency_faults opened least 100 (omega arith) refl

two-is_listed : is_listed 2 ≡ true
unfolding is_listed
two-is_listed = refl

count_raised_example : (u : Rtc) × (count_raised 1024 opened ≡ some (u, 1024 / (1024 / 2)))
count_raised_example = count_raised_lem 2 two-is_listed (omega arith) 1024 opened refl refl

rtc_read_example : Returned 2 (rtc_read 512 opened)
rtc_read_example =
    rtc_read_returns 2 two-is_listed (omega arith) 512 opened (omega arith) refl (omega arith)
