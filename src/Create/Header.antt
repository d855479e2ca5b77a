-- ===== src/Create/Header.antt =====
-- The lines about the whole block that a create writes, and what they are read to
-- (`block_create_cli_1_svc_st`, rpc/block_create.c).
use gluster_block.Prelude.{
  ℕ, ◌≤◌, ◌<◌, ◌^◌, ◌≡◌, refl, Bool, true, false, List, [], ◌∷◌, ◌++◌, arith, length, if◌then◌else◌,
  ◌==◌,
}
use gluster_block.Text.{Text, codes, first_token, after_char, str_cpy}
use gluster_block.Text.Laws.{str_cpy_of_fits}
use gluster_block.Text.Decimal.{
  size_max, format_zu, scan_zu-format_zu, format_u, format_d, format_u-small, format_d-small,
}
use gluster_block.Enums.Key.{key_parse}
use gluster_block.Meta.{MetaInfo, ok, blank_info, stuff_meta_info}
use gluster_block.Meta.Lines.{IsLineText, stuff_lines}
use gluster_block.Create.Cli.{CreateCli, inprogress_lines, success_lines}

-- A text that fits an array of the metadata.
pub record IsValue (n : ℕ) (v : Text) : Type 0 where
  pub text : IsLineText v
  pub fits : length v ≤ n

-- What the command line and the identifiers have to be.
pub record IsRequest (blk : CreateCli) : Type 0 where
  pub volume : IsValue 254 blk.volume
  pub size : blk.size ≤ size_max
  pub rb_size : blk.rb_size < 2 ^ 32
  pub blk_size : blk.blk_size < 2 ^ 32
  pub io_timeout : blk.io_timeout < 2 ^ 32
  pub mpath : blk.mpath < 2 ^ 31

module _ (info : MetaInfo) where
  stuff-volume :
      (v : Text)
      → length v ≤ 254
      → stuff_meta_info info (codes "VOLUME: " ++ v) ≡ ok (record info { volume = v })
  unfolding stuff_meta_info first_token after_char key_parse
  stuff-volume v h = rw (str_cpy_of_fits 255 v info.volume h) refl

  stuff-gbid :
      (v : Text)
      → length v ≤ 37
      → stuff_meta_info info (codes "GBID: " ++ v) ≡ ok (record info { gbid = v })
  unfolding stuff_meta_info first_token after_char key_parse
  stuff-gbid v h = rw (str_cpy_of_fits 38 v info.gbid h) refl

  pub stuff-prio_path :
      (v : Text)
      → length v ≤ 254
      → stuff_meta_info info (codes "PRIOPATH: " ++ v) ≡ ok (record info { prio_path = v })
  unfolding stuff_meta_info first_token after_char key_parse
  stuff-prio_path v h = rw (str_cpy_of_fits 255 v info.prio_path h) refl

  stuff-passwd :
      (v : Text)
      → length v ≤ 37
      → stuff_meta_info info (codes "PASSWORD: " ++ v) ≡ ok (record info { passwd = v })
  unfolding stuff_meta_info first_token after_char key_parse
  stuff-passwd v h = rw (str_cpy_of_fits 38 v info.passwd h) refl

  stuff-ha :
      (n : ℕ)
      → n < 2 ^ 31
      → stuff_meta_info info (codes "HA: " ++ format_d n) ≡ ok (record info { mpath = n })
  unfolding stuff_meta_info first_token after_char key_parse
  stuff-ha n h = rw (format_d-small n h) (ground (arith, scan_zu-format_zu n (omega (arith, h))))

  stuff-size :
      (n : ℕ)
      → n ≤ size_max
      → stuff_meta_info info (codes "SIZE: " ++ format_zu n)
        ≡ ok (record info {
          size = n;
          initial_size = if info.initial_size == 0 then n else info.initial_size;
        })
  unfolding stuff_meta_info first_token after_char key_parse
  stuff-size n h = ground (arith, scan_zu-format_zu n h)

  stuff-rb_size :
      (n : ℕ)
      → n < 2 ^ 32
      → stuff_meta_info info (codes "RINGBUFFER: " ++ format_u n) ≡ ok (record info { rb_size = n })
  unfolding stuff_meta_info first_token after_char key_parse
  stuff-rb_size n h =
      rw (format_u-small n h) (ground (arith, scan_zu-format_zu n (omega (arith, h))))

  stuff-blk_size :
      (n : ℕ)
      → n < 2 ^ 32
      → stuff_meta_info info (codes "BLKSIZE: " ++ format_u n) ≡ ok (record info { blk_size = n })
  unfolding stuff_meta_info first_token after_char key_parse
  stuff-blk_size n h =
      rw (format_u-small n h) (ground (arith, scan_zu-format_zu n (omega (arith, h))))

  stuff-io_timeout :
      (n : ℕ)
      → n < 2 ^ 32
      → stuff_meta_info info (codes "IOTIMEOUT: " ++ format_u n)
        ≡ ok (record info { io_timeout = n })
  unfolding stuff_meta_info first_token after_char key_parse
  stuff-io_timeout n h =
      rw (format_u-small n h) (ground (arith, scan_zu-format_zu n (omega (arith, h))))

  stuff-entry :
      stuff_meta_info info (codes "ENTRYCREATE: INPROGRESS")
      ≡ ok (record info { entry = codes "INPROGRESS" })
  unfolding stuff_meta_info first_token after_char key_parse str_cpy
  stuff-entry = refl

  stuff-entry_success :
      stuff_meta_info info (codes "ENTRYCREATE: SUCCESS")
      ≡ ok (record info { entry = codes "SUCCESS" })
  unfolding stuff_meta_info first_token after_char key_parse str_cpy
  stuff-entry_success = refl

-- What the lines of a create are read to.
abbrev pub header_info : CreateCli → (gbid prio_path : Text) → MetaInfo
header_info blk gbid prio_path = record blank_info {
  volume = blk.volume;
  gbid = gbid;
  mpath = blk.mpath;
  entry = codes "INPROGRESS";
  prio_path = prio_path;
}

abbrev pub entry_info : CreateCli → (no_io_timeout : Bool) → (gbid prio_path : Text) → MetaInfo
entry_info blk no_io_timeout gbid prio_path = record (header_info blk gbid prio_path) {
  size = blk.size;
  initial_size = blk.size;
  rb_size = blk.rb_size;
  blk_size = blk.blk_size;
  io_timeout = if no_io_timeout then 0 else blk.io_timeout;
  entry = codes "SUCCESS";
}

pub header-read :
    (blk : CreateCli) (gbid prio_path : Text)
    → IsRequest blk
    → IsValue 37 gbid
    → IsValue 254 prio_path
    → stuff_lines (inprogress_lines blk gbid prio_path) blank_info
      ≡ ok (header_info blk gbid prio_path)
unfolding stuff_lines inprogress_lines
header-read blk gbid [] b g p =
    rw (stuff-volume blank_info blk.volume b.volume.fits)
      (rw (stuff-gbid _ gbid g.fits) (rw (stuff-ha _ blk.mpath b.mpath) (rw (stuff-entry _) refl)))
header-read blk gbid (c ∷ s) b g p = rw (stuff-volume blank_info blk.volume b.volume.fits) (
    rw (stuff-gbid _ gbid g.fits) (
      rw (stuff-ha _ blk.mpath b.mpath)
        (rw (stuff-entry _) (rw (stuff-prio_path _ (c ∷ s) p.fits) refl))))

pub entry-read :
    (blk : CreateCli) (no_io_timeout : Bool) (gbid prio_path : Text)
    → IsRequest blk
    → stuff_lines (success_lines blk no_io_timeout) (header_info blk gbid prio_path)
      ≡ ok (entry_info blk no_io_timeout gbid prio_path)
unfolding stuff_lines success_lines
entry-read blk true gbid prio_path b = rw (stuff-size _ blk.size b.size) (
    rw (stuff-rb_size _ blk.rb_size b.rb_size)
      (rw (stuff-blk_size _ blk.blk_size b.blk_size) (rw (stuff-entry_success _) refl)))
entry-read blk false gbid prio_path b = rw (stuff-size _ blk.size b.size) (
    rw (stuff-rb_size _ blk.rb_size b.rb_size) (
      rw (stuff-blk_size _ blk.blk_size b.blk_size)
        (rw (stuff-io_timeout _ blk.io_timeout b.io_timeout) (rw (stuff-entry_success _) refl))))

-- The line with the password, if there is one.
abbrev pub passwd_lines : (auth : Bool) → Text → List Text
passwd_lines true pw = (codes "PASSWORD: " ++ pw) ∷ []
passwd_lines false pw = []

-- All lines of a create about the whole block.
abbrev pub created_lines :
    CreateCli → (no_io_timeout : Bool) → (gbid prio_path pw : Text) → List Text
created_lines blk no_io_timeout gbid prio_path pw =
    (inprogress_lines blk gbid prio_path ++ success_lines blk no_io_timeout)
    ++ passwd_lines blk.auth_mode pw

abbrev pub created_info : CreateCli → (no_io_timeout : Bool) → (gbid prio_path pw : Text) → MetaInfo
created_info blk no_io_timeout gbid prio_path pw =
    record (entry_info blk no_io_timeout gbid prio_path) {
      passwd = if blk.auth_mode then pw else [];
    }

pub passwd-read :
    (auth : Bool) (info : MetaInfo) (pw : Text)
    → info.passwd ≡ []
    → length pw ≤ 37
    → stuff_lines (passwd_lines auth pw) info
      ≡ ok (record info { passwd = if auth then pw else [] })
unfolding stuff_lines
passwd-read true info pw e l = rw (stuff-passwd info pw l) refl
passwd-read false info pw e l = rw (← e) refl
