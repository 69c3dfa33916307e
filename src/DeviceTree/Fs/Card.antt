-- ===== src/DeviceTree/Fs/Card.antt =====
-- The SD card: the loop for its address.
use eerie_leap_rt.Common.{
  ℕ, zero, suc, ◌^◌, ◌<◌, ◌≡◌, refl, ap, some, ◌==◌, arith, Bool-cases, inl, inr, ◌⊎◌, ==_iff,
}
use eerie_leap_rt.DeviceTree.Fs.{
  Host, DtFs, sd_send_relative_addr, Reply, failed, answered, upper_half, to_upper_half,
  request_rca,
}

-- The address that CMD13 carries is the card's own.
pub upper_half-to_upper_half : (rca : ℕ) → rca < 2 ^ 16 → upper_half (to_upper_half rca) ≡ rca
unfolding upper_half to_upper_half
upper_half-to_upper_half rca h = omega arith

pub upper_half-lt : (r : ℕ) → upper_half r < 2 ^ 16
unfolding upper_half
upper_half-lt r = omega arith

module _ (h : Host) where
  open h use {World}

  -- What the loop relies on: a card publishes an address other than 0 after some requests, or
  -- fails. `patience` bounds how many zero answers are left.
  pub record IsPatient (patience : World → ℕ) : Type 0 where
    pub wears :
        (w : World) (r : ℕ)
        → (h.request sd_send_relative_addr 0 w).0 ≡ answered r
        → upper_half r ≡ 0
        → patience (h.request sd_send_relative_addr 0 w).1 < patience w

  -- The last request of the loop: an address was published, or the request failed.
  pub data Last (e rca : ℕ) (w' : World) : Type 0 where
    published :
        (r : ℕ) (w : World)
        → h.request sd_send_relative_addr 0 w ≡ (answered r, w')
        → upper_half r ≡ rca
        → 0 < rca
        → e ≡ 0
        → Last e rca w'
    refused :
        (k : ℕ) (w : World)
        → h.request sd_send_relative_addr 0 w ≡ (failed k, w')
        → e ≡ suc k
        → Last e rca w'

  -- The loop ended in `e`, having stored the address.
  abbrev pub EndsWith : ℕ → DtFs h → World → Type 0
  EndsWith rounds s w =
      (e : ℕ) × (rca : ℕ) × (w' : World) × (request_rca h rounds s w
        ≡ some (e, record s { sd_relative_addr = rca }, w'))
      × Last e rca w'

  request_rca-answered :
      (rounds : ℕ) (s : DtFs h) (w : World) (r : ℕ)
      → (h.request sd_send_relative_addr 0 w).0 ≡ answered r
      → (upper_half r ≡ 0
          → EndsWith rounds
              (record s { sd_relative_addr = upper_half r })
              (h.request sd_send_relative_addr 0 w).1)
      → EndsWith (suc rounds) s w
  unfolding request_rca
  request_rca-answered rounds s w r q ih = elim (Bool-cases (upper_half r == 0)) [
    | inl z ↦
        let (e, rca, w', run, last) = ih ((==_iff (upper_half r) 0).0 z) in
        (e, rca, w', rw (q, request_rca) (rw z run), last)
    | inr nz ↦
        let w1 = (h.request sd_send_relative_addr 0 w).1 in
        (
          0,
          upper_half r,
          w1,
          rw (q, request_rca) (rw nz),
          published r w (ap (λ x. (x, w1)) q) refl (ground arith) refl,
        )
  ]

  request_rca-failed :
      (rounds : ℕ) (s : DtFs h) (w : World) (e : ℕ)
      → (h.request sd_send_relative_addr 0 w).0 ≡ failed e
      → EndsWith (suc rounds) s w
  unfolding request_rca
  request_rca-failed rounds s w e q =
      let w1 = (h.request sd_send_relative_addr 0 w).1 in
      (suc e, s.sd_relative_addr, w1, rw (q, request_rca), refused e w (ap (λ x. (x, w1)) q) refl)

  pub Reply-cases : (x : Reply) → ((e : ℕ) × (x ≡ failed e)) ⊎ ((r : ℕ) × (x ≡ answered r))
  Reply-cases (failed e) = inl (e, refl)
  Reply-cases (answered r) = inr (r, refl)

  pub request_rca-Last :
      (patience : World → ℕ) (law : IsPatient patience) (rounds : ℕ) (s : DtFs h) (w : World)
      → patience w < rounds
      → EndsWith rounds s w
  request_rca-Last patience law zero s w b = absurd (omega arith)
  request_rca-Last patience law (suc rounds) s w b =
      let w1 = (h.request sd_send_relative_addr 0 w).1 in
      elim (Reply-cases (h.request sd_send_relative_addr 0 w).0) [
        | inl (e, q) ↦ request_rca-failed rounds s w e q
        | inr (r, q) ↦ request_rca-answered rounds s w r q λ z.
            request_rca-Last patience law rounds (record s { sd_relative_addr = upper_half r }) w1
              (omega (arith, law.wears w r q z))
      ]

  pub Last-address : (e rca : ℕ) (w' : World) → Last e rca w' → e ≡ 0 → (0 < rca) × (rca < 2 ^ 16)
  Last-address e rca w' (published r w q u positive z) h0 =
      (positive, omega (arith, upper_half-lt r, u))
  Last-address e rca w' (refused k w q u) h0 = absurd (omega arith)

  -- With rounds enough, the loop ends, and if it ends without an error, the address that it stored
  -- is not 0 and fits 16 bits; nothing else of the statics changes.
  pub request_rca_lem :
      (patience : World → ℕ) (law : IsPatient patience) (rounds : ℕ) (s : DtFs h) (w : World)
      → patience w < rounds
      → (e : ℕ) × (rca : ℕ) × (w' : World) × (request_rca h rounds s w
          ≡ some (e, record s { sd_relative_addr = rca }, w'))
        × (e ≡ 0 → (0 < rca) × (rca < 2 ^ 16))
  request_rca_lem patience law rounds s w b =
      let (e, rca, w', run, last) = request_rca-Last patience law rounds s w b in
      (e, rca, w', run, Last-address e rca w' last)
