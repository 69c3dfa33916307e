-- ===== src/DeviceTree/Fs/Status.antt =====
-- The SD card: what a read of its status sends.
use eerie_leap_rt.Common.{
  ℕ, zero, suc, ◌^◌, ◌<◌, ◌≡◌, refl, sym, ap, subst, ◌∙◌, Bool, true, false, Option, some, ◌==◌,
  arith, Bool-cases, inl, inr, ==_iff,
}
use eerie_leap_rt.DeviceTree.Fs.{
  Host, DtFs, Reply, failed, answered, upper_half, to_upper_half, request_rca, send_status,
  with_rca, sdmmc_read_status, sd_send_status,
}
use eerie_leap_rt.DeviceTree.Fs.Card.{
  upper_half-to_upper_half, IsPatient, Last, Last-address, Reply-cases, request_rca-Last,
}

module _ (h : Host) where
  open h use {World}

  -- The reply to a request, with or without an error.
  abbrev pub is_answer : Reply → Bool
  is_answer (failed e) = false
  is_answer (answered r) = true

  send_status_lem :
      (arg : ℕ) (s : DtFs h) (w : World)
      → send_status h arg s w
        ≡ (is_answer (h.request sd_send_status arg w).0, s, (h.request sd_send_status arg w).1)
  unfolding send_status
  send_status_lem arg s w = elim (Reply-cases h (h.request sd_send_status arg w).0) [
    | inl (e, q) ↦ rw (q, send_status) refl
    | inr (r, q) ↦ rw (q, send_status) refl
  ]

  -- The status was asked for last, with an argument: what was answered decides.
  abbrev pub Asks : ℕ → DtFs h → World → Option (Bool × DtFs h × World) → Type 0
  Asks arg s w r =
      r ≡ some (is_answer (h.request sd_send_status arg w).0, s, (h.request sd_send_status arg w).1)

  -- How a status read ends: an SPI host is asked with no address, a card whose address is known with
  -- that one in the upper half, any other card with the address that it has published before, unless
  -- it failed to.
  pub data Reads (s : DtFs h) (w : World) (r : Option (Bool × DtFs h × World)) : Type 0 where
    on_spi : s.is_spi ≡ true → Asks 0 s w r → Reads s w r
    with_address :
        (arg : ℕ)
        → s.is_spi ≡ false
        → 0 < s.sd_relative_addr
        → upper_half arg ≡ s.sd_relative_addr
        → Asks arg s w r
        → Reads s w r
    with_published :
        (arg rca : ℕ) (w' : World)
        → s.is_spi ≡ false
        → s.sd_relative_addr ≡ 0
        → Last h 0 rca w'
        → upper_half arg ≡ rca
        → Asks arg (record s { sd_relative_addr = rca }) w' r
        → Reads s w r
    unpublished :
        (k rca : ℕ) (w' : World)
        → s.is_spi ≡ false
        → s.sd_relative_addr ≡ 0
        → Last h (suc k) rca w'
        → r ≡ some (false, record s { sd_relative_addr = rca }, w')
        → Reads s w r

  with_rca_lem :
      (e rca : ℕ) (s : DtFs h) (w w' : World) (r : Option (ℕ × DtFs h × World))
      → s.is_spi ≡ false
      → s.sd_relative_addr ≡ 0
      → r ≡ some (e, record s { sd_relative_addr = rca }, w')
      → Last h e rca w'
      → Reads s w (with_rca h r)
  unfolding with_rca
  with_rca_lem zero rca s w w' r spi none_yet run last =
      let (positive, small) = Last-address h 0 rca w' last refl in
      with_published (to_upper_half rca) rca w' spi none_yet last
        (upper_half-to_upper_half rca small)
        (rw (run, with_rca)
          (ap some (send_status_lem (to_upper_half rca) (record s { sd_relative_addr = rca }) w')))
  with_rca_lem (suc e) rca s w w' r spi none_yet run last =
      unpublished e rca w' spi none_yet last (rw (run, with_rca) (ground arith))

  read_status_spi :
      (rounds : ℕ) (s : DtFs h) (w : World)
      → s.is_spi ≡ true
      → sdmmc_read_status h rounds s w ≡ some (send_status h 0 s w)
  unfolding sdmmc_read_status
  read_status_spi rounds s w e = simp e

  read_status_unread :
      (rounds : ℕ) (s : DtFs h) (w : World)
      → s.is_spi ≡ false
      → (s.sd_relative_addr == 0) ≡ true
      → sdmmc_read_status h rounds s w ≡ with_rca h (request_rca h rounds s w)
  unfolding sdmmc_read_status
  read_status_unread rounds s w e z = simp (e, z)

  read_status_read :
      (rounds : ℕ) (s : DtFs h) (w : World)
      → s.is_spi ≡ false
      → (s.sd_relative_addr == 0) ≡ false
      → sdmmc_read_status h rounds s w ≡ some (send_status h (to_upper_half s.sd_relative_addr) s w)
  unfolding sdmmc_read_status with_rca
  read_status_read rounds s w e z = simp (e, z)

  -- SdmmcReadStatus with rounds enough, where the stored address fits its 16 bits, ends in one of
  -- four ways. An SPI host is sent CMD13 with the argument 0. Any other host is sent CMD13 with the
  -- card's address in the argument's upper half: at once with the stored one, if that is not 0, and
  -- else with the one, not 0, that the card's last answer to CMD3 had, which is then stored. In these
  -- cases the result says whether CMD13 succeeded. Or the last CMD3 failed: then CMD13 is not sent
  -- and the result is false. No static but the address changes.
  pub sdmmc_read_status-Reads :
      (patience : World → ℕ) (law : IsPatient h patience) (rounds : ℕ) (s : DtFs h) (w : World)
      → patience w < rounds
      → s.sd_relative_addr < 2 ^ 16
      → Reads s w (sdmmc_read_status h rounds s w)
  sdmmc_read_status-Reads patience law rounds s w b small = elim (Bool-cases s.is_spi) [
    | inl spi ↦ on_spi spi (read_status_spi rounds s w spi ∙ ap some (send_status_lem 0 s w))
    | inr other ↦ elim (Bool-cases (s.sd_relative_addr == 0)) [
      | inl z ↦
          let none_yet = (==_iff s.sd_relative_addr 0).0 z in
          let (e, rca, w', run, last) = request_rca-Last h patience law rounds s w b in
          subst (Reads s w) (sym (read_status_unread rounds s w other z))
            (with_rca_lem e rca s w w' (request_rca h rounds s w) other none_yet run last)
      | inr nz ↦
          let arg = to_upper_half s.sd_relative_addr in
          with_address arg other (ground arith) (upper_half-to_upper_half s.sd_relative_addr small)
            (read_status_read rounds s w other nz ∙ ap some (send_status_lem arg s w))
    ]
  ]
