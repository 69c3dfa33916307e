-- ===== src/DeviceTree/Fs/Tests.antt =====
-- A card that publishes its address at the third request, and the theorems at inputs.
use eerie_leap_rt.Common.{
  ℕ, zero, suc, ◌<◌, ◌≡◌, refl, true, false, none, some, [], ◌∷◌, arith, ltb, if◌then◌else◌, codes,
  ◌^◌,
}
use eerie_leap_rt.DeviceTree.Fs.{
  Host, DtFs, Opcode, sd_send_relative_addr, sd_send_status, Reply, answered, upper_half,
  request_rca, sdmmc_read_status,
}
use eerie_leap_rt.DeviceTree.Fs.Status.{Reads, sdmmc_read_status-Reads}
use eerie_leap_rt.DeviceTree.Fs.Card.{IsPatient, request_rca_lem}

-- The world counts the requests that are left before the card publishes 0x1234.
abbrev answer : Opcode → ℕ → ℕ → Reply × ℕ
answer sd_send_relative_addr arg zero = (answered 0x1234_0500, 0)
answer sd_send_relative_addr arg (suc n) = (answered 0x0500, n)
answer sd_send_status arg n = (answered 0, n)

abbrev sample : Host
sample = record {
  World = ℕ;
  Mount = ℕ;
  int_fs_entry = some 1;
  sd_fs_entry = some 2;
  disk_names = codes "SD" ∷ [];
  get_host_props = λ w. if ltb w 9 then some false else none;
  request = answer;
  sd_is_card_present = λ w. true;
}

sample-IsPatient : IsPatient sample (λ w. w)
unfolding upper_half
sample-IsPatient = record { wears = wears }
  where
    wears :
        (w r : ℕ)
        → (answer sd_send_relative_addr 0 w).0 ≡ answered r
        → upper_half r ≡ 0
        → (answer sd_send_relative_addr 0 w).1 < w
    wears zero r e z = let q : 0x1234_0500 ≡ r = cc in omega arith
    wears (suc w) r e z = omega arith

abbrev mounted : DtFs sample
mounted = record {
  int_fs_mp = none;
  sd_fs_mp = some 2;
  is_spi = true;
  sd_relative_addr = 0;
  sd_disk_name = none;
}

third_answer :
    request_rca sample 5 mounted 2 ≡ some (0, record mounted { sd_relative_addr = 0x1234 }, 0)
unfolding request_rca upper_half
third_answer = refl

request_rca_lem_example :
    (e : ℕ) × (rca : ℕ) × (w' : ℕ) × (request_rca sample 5 mounted 2
      ≡ some (e, record mounted { sd_relative_addr = rca }, w'))
    × (e ≡ 0 → (0 < rca) × (rca < 2 ^ 16))
request_rca_lem_example = request_rca_lem sample (λ w. w) sample-IsPatient 5 mounted 2 (omega arith)

-- The address is not known yet.
abbrev unread : DtFs sample
unread = record mounted { is_spi = false }

sdmmc_read_status-Reads_example : Reads sample unread 2 (sdmmc_read_status sample 5 unread 2)
sdmmc_read_status-Reads_example =
    sdmmc_read_status-Reads sample (λ w. w) sample-IsPatient 5 unread 2 (omega arith) (omega arith)

status_read :
    sdmmc_read_status sample 5 unread 2
    ≡ some (true, record unread { sd_relative_addr = 0x1234 }, 0)
unfolding sdmmc_read_status upper_half
status_read = refl
