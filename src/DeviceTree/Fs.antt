-- ===== src/DeviceTree/Fs.antt =====
-- app/src/subsys/device_tree/dt_fs.{h,cpp}: `DtFs`, the mount points and the SD card's presence, in
-- a build with CONFIG_SDMMC_SUBSYS.
pub mod Card
pub mod Status
mod Tests
use eerie_leap_rt.Common.{
  ℕ, zero, suc, ◌*◌, ◌/◌, ◌%◌, ◌^◌, Bool, true, false, not, Option, none, some, List, ◌==◌,
  if◌then◌else◌,
}

-- `SD_SEND_RELATIVE_ADDR` (CMD3) and `SD_SEND_STATUS` (CMD13).
pub data Opcode : Type 0 where
  sd_send_relative_addr sd_send_status : Opcode

-- How `sdhc_request` ends: with an error code, the number here plus one, or with 0 and the first
-- word of the response.
pub data Reply : Type 0 where
  failed : ℕ → Reply
  answered : ℕ → Reply

-- The SD host driver, and what the board's device tree fixes.
pub record Host : Type 1 where
  pub World : Type 0
  pub Mount : Type 0
  -- `FS_FSTAB_ENTRY(INT_FS_NODE)`, if the alias is there.
  pub int_fs_entry : Option Mount
  -- `FS_FSTAB_ENTRY(SD_FS_NODE)` with `storage_dev` set, if the aliases are there.
  pub sd_fs_entry : Option Mount
  pub disk_names : List (List ℕ)
  -- `sdhc_get_host_props`: none for an error, or else `is_spi`.
  pub get_host_props : World → Option Bool
  pub request : Opcode → ℕ → World → Reply × World
  pub sd_is_card_present : World → Bool

pub record DtFs (h : Host) : Type 0 where
  pub int_fs_mp : Option h.Mount
  pub sd_fs_mp : Option h.Mount
  pub is_spi : Bool
  pub sd_relative_addr : ℕ
  pub sd_disk_name : Option (List ℕ)

-- `(response & 0xFFFF0000) >> 16U` of a 32-bit word; the shift drops what the mask clears.
unfoldable pub upper_half : ℕ → ℕ
upper_half r = r % 2 ^ 32 / 2 ^ 16

-- `rca << 16U` on 32 bits.
unfoldable pub to_upper_half : ℕ → ℕ
to_upper_half rca = rca * 2 ^ 16 % 2 ^ 32

module _ (h : Host) where
  open h use {World, Mount}

  unfoldable pub dt_fs_init : DtFs h
  dt_fs_init = record {
    int_fs_mp = none;
    sd_fs_mp = none;
    is_spi = false;
    sd_relative_addr = 0;
    sd_disk_name = none;
  }

  unfoldable pub init_internal_fs : DtFs h → DtFs h
  init_internal_fs s = elim h.int_fs_entry [
    | none ↦ s
    | some mount ↦ record s { int_fs_mp = some mount }
  ]

  abbrev first_name : List (List ℕ) → Option (List ℕ) → Option (List ℕ)
  first_name List.[] old = old
  first_name (List.◌∷◌ name names) old = some name

  -- The part of `InitSdFs` behind the host's properties.
  unfoldable pub with_props : Option Bool → DtFs h → DtFs h
  with_props none s = s
  with_props (some spi) s = record s {
    is_spi = spi;
    sd_disk_name = first_name h.disk_names s.sd_disk_name;
  }

  unfoldable pub init_sd_fs : World → DtFs h → DtFs h
  unfolding with_props
  init_sd_fs w s = elim h.sd_fs_entry [
    | none ↦ s
    | some mount ↦ with_props (h.get_host_props w) (record s { sd_fs_mp = some mount })
  ]

  -- `SdmmcRequestRca`: the error code (0 for none), the statics and the host, or none when the
  -- rounds are used up.
  unfoldable pub request_rca : ℕ → DtFs h → World → Option (ℕ × DtFs h × World)
  request_rca zero s w = none
  request_rca (suc rounds) s w =
      let (reply, w') = h.request sd_send_relative_addr 0 w in
      elim reply [
        | failed e ↦ some (suc e, s, w')
        | answered r ↦ elim (upper_half r == 0) [
          | true ↦ request_rca rounds (record s { sd_relative_addr = upper_half r }) w'
          | false ↦ some (0, record s { sd_relative_addr = upper_half r }, w')
        ]
      ]

  -- The last request of `SdmmcReadStatus`.
  unfoldable pub send_status : ℕ → DtFs h → World → Bool × DtFs h × World
  send_status arg s w =
      let (reply, w') = h.request sd_send_status arg w in
      elim reply [ failed e ↦ (false, s, w') | answered r ↦ (true, s, w') ]

  -- `SdmmcReadStatus` from the relative address on, if the host is not SPI.
  unfoldable pub with_rca : Option (ℕ × DtFs h × World) → Option (Bool × DtFs h × World)
  unfolding send_status to_upper_half
  with_rca none = none
  with_rca (some (e, s, w)) =
      if e == 0
      then some (send_status (to_upper_half s.sd_relative_addr) s w)
      else some (false, s, w)

  unfoldable pub sdmmc_read_status : ℕ → DtFs h → World → Option (Bool × DtFs h × World)
  unfolding with_rca request_rca
  sdmmc_read_status rounds s w =
      if s.is_spi
      then some (send_status 0 s w)
      else with_rca (elim (s.sd_relative_addr == 0) [
        | true ↦ request_rca rounds s w
        | false ↦ some (0, s, w)
      ])

  unfoldable pub is_sd_card_present : ℕ → DtFs h → World → Option (Bool × DtFs h × World)
  unfolding sdmmc_read_status
  is_sd_card_present rounds s w = elim h.sd_fs_entry [
    | none ↦ some (false, s, w)
    | some mount ↦
        if s.is_spi then sdmmc_read_status rounds s w else some (h.sd_is_card_present w, s, w)
  ]
