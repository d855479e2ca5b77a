-- ===== src/Create/Lines.antt =====
-- The lines about the whole block that a create writes make up a file (`block_create_cli_1_svc_st`,
-- rpc/block_create.c).
use gluster_block.Prelude.{
  ℕ, ◌≤◌, ◌<◌, ◌^◌, ◌≢◌, ◌∙◌, refl, ap, Bool, true, false, List, [], ◌∷◌, ◌++◌, All, arith, length,
  length-append,
}
use gluster_block.Text.{Text, codes}
use gluster_block.Text.Laws.{Lacks, Lacks-append}
use gluster_block.Text.Decimal.{
  size_max, format_zu, length-format_zu, Lacks-format_zu, format_u, format_d, format_u-small,
  format_d-small,
}
use gluster_block.Meta.{MetaInfo, Outcome, ◌>>=◌, blank_info}
use gluster_block.Meta.Lines.{stuff_lines}
use gluster_block.Meta.Read.{IsLine}
use gluster_block.Meta.File.{IsFile, stuff_lines-append}
use gluster_block.Create.Cli.{CreateCli, inprogress_lines, success_lines}
use gluster_block.Create.Header.{
  IsValue, IsRequest, entry_info, passwd_lines, created_lines, created_info, header-read,
  entry-read, passwd-read,
}

All-append : (ks ls : List Text) → All IsLine ks → All IsLine ls → All IsLine (ks ++ ls)
All-append [] ls h k = k
All-append (x ∷ ks) ls h k = (h.0, All-append ks ls h.1 k)

-- The part of a line in front of its value.
abbrev pub IsKeyText : Text → Type 0
IsKeyText k = (k ≢ []) × Lacks 10 k × Lacks 0 k × (length k ≤ 20)

pub value-IsLine : (k v : Text) → IsKeyText k → IsValue 254 v → IsLine (k ++ v)
value-IsLine [] v (n, t, u, l) i = absurd (n refl)
value-IsLine (c ∷ k) v (n, t, u, l) i = record {
  nonempty = λ p. cc;
  text = record {
    no_newline = Lacks-append 10 (c ∷ k) v t i.text.no_newline;
    no_null = Lacks-append 0 (c ∷ k) v u i.text.no_null;
  };
  short = omega (arith, l, i.fits, length-append {0} (c ∷ k) v);
}

number-IsValue : (n : ℕ) → n ≤ size_max → IsValue 254 (format_zu n)
number-IsValue n h = record {
  text = record { no_newline = Lacks-format_zu 10 n refl; no_null = Lacks-format_zu 0 n refl };
  fits = omega (arith, length-format_zu n 19 (omega (arith, h)));
}

word-IsValue : (n : ℕ) → n < 2 ^ 32 → IsValue 254 (format_u n)
word-IsValue n h = rw (format_u-small n h) (number-IsValue n (omega (arith, h)))

signed-IsValue : (n : ℕ) → n < 2 ^ 31 → IsValue 254 (format_d n)
signed-IsValue n h = rw (format_d-small n h) (number-IsValue n (omega (arith, h)))

wider : (v : Text) → IsValue 37 v → IsValue 254 v
wider v i = record { text = i.text; fits = omega (arith, i.fits) }

inprogress-IsLine :
    (blk : CreateCli) (gbid prio_path : Text)
    → IsRequest blk
    → IsValue 37 gbid
    → IsValue 254 prio_path
    → All IsLine (inprogress_lines blk gbid prio_path)
unfolding inprogress_lines
inprogress-IsLine blk gbid [] b g p = (
  value-IsLine (codes "VOLUME: ") blk.volume (λ p. cc, omega arith, omega arith, omega arith)
      b.volume,
  (
    value-IsLine (codes "GBID: ") gbid (λ p. cc, omega arith, omega arith, omega arith)
        (wider gbid g),
    (
      value-IsLine (codes "HA: ") (format_d blk.mpath)
          (λ p. cc, omega arith, omega arith, omega arith) (signed-IsValue blk.mpath b.mpath),
      (
        record {
          nonempty = λ p. cc;
          text = record { no_newline = omega arith; no_null = omega arith };
          short = omega arith;
        },
        tt,
      ),
    ),
  ),
)
inprogress-IsLine blk gbid (c ∷ s) b g p = (
  value-IsLine (codes "VOLUME: ") blk.volume (λ p. cc, omega arith, omega arith, omega arith)
      b.volume,
  (
    value-IsLine (codes "GBID: ") gbid (λ p. cc, omega arith, omega arith, omega arith)
        (wider gbid g),
    (
      value-IsLine (codes "HA: ") (format_d blk.mpath)
          (λ p. cc, omega arith, omega arith, omega arith) (signed-IsValue blk.mpath b.mpath),
      (
        record {
          nonempty = λ p. cc;
          text = record { no_newline = omega arith; no_null = omega arith };
          short = omega arith;
        },
        (
          value-IsLine (codes "PRIOPATH: ") (c ∷ s) (λ p. cc, omega arith, omega arith, omega arith)
              p,
          tt,
        ),
      ),
    ),
  ),
)

success-IsLine :
    (blk : CreateCli) (no_io_timeout : Bool)
    → IsRequest blk
    → All IsLine (success_lines blk no_io_timeout)
unfolding success_lines
success-IsLine blk true b = (
  value-IsLine (codes "SIZE: ") (format_zu blk.size)
      (λ p. cc, omega arith, omega arith, omega arith) (number-IsValue blk.size b.size),
  (
    value-IsLine (codes "RINGBUFFER: ") (format_u blk.rb_size)
        (λ p. cc, omega arith, omega arith, omega arith) (word-IsValue blk.rb_size b.rb_size),
    (
      value-IsLine (codes "BLKSIZE: ") (format_u blk.blk_size)
          (λ p. cc, omega arith, omega arith, omega arith) (word-IsValue blk.blk_size b.blk_size),
      (
        record {
          nonempty = λ p. cc;
          text = record { no_newline = omega arith; no_null = omega arith };
          short = omega arith;
        },
        tt,
      ),
    ),
  ),
)
success-IsLine blk false b = (
  value-IsLine (codes "SIZE: ") (format_zu blk.size)
      (λ p. cc, omega arith, omega arith, omega arith) (number-IsValue blk.size b.size),
  (
    value-IsLine (codes "RINGBUFFER: ") (format_u blk.rb_size)
        (λ p. cc, omega arith, omega arith, omega arith) (word-IsValue blk.rb_size b.rb_size),
    (
      value-IsLine (codes "BLKSIZE: ") (format_u blk.blk_size)
          (λ p. cc, omega arith, omega arith, omega arith) (word-IsValue blk.blk_size b.blk_size),
      (
        value-IsLine (codes "IOTIMEOUT: ") (format_u blk.io_timeout)
            (λ p. cc, omega arith, omega arith, omega arith)
            (word-IsValue blk.io_timeout b.io_timeout),
        (
          record {
            nonempty = λ p. cc;
            text = record { no_newline = omega arith; no_null = omega arith };
            short = omega arith;
          },
          tt,
        ),
      ),
    ),
  ),
)

passwd-IsLine : (auth : Bool) (pw : Text) → IsValue 37 pw → All IsLine (passwd_lines auth pw)
passwd-IsLine true pw i = (
  value-IsLine (codes "PASSWORD: ") pw (λ p. cc, omega arith, omega arith, omega arith)
      (wider pw i),
  tt,
)
passwd-IsLine false pw i = tt

-- The lines of a create about the whole block are a file without nodes.
pub created-IsFile :
    (blk : CreateCli) (no_io_timeout : Bool) (gbid prio_path pw : Text)
    → IsRequest blk
    → IsValue 37 gbid
    → IsValue 254 prio_path
    → IsValue 37 pw
    → IsFile
        (created_lines blk no_io_timeout gbid prio_path pw)
        (created_info blk no_io_timeout gbid prio_path pw)
created-IsFile blk no_io_timeout gbid prio_path pw b g p i =
    let a = inprogress_lines blk gbid prio_path in
    let c = success_lines blk no_io_timeout in
    let d = passwd_lines blk.auth_mode pw in
    record {
      lines =
          All-append (a ++ c) d
            (All-append a c (inprogress-IsLine blk gbid prio_path b g p)
              (success-IsLine blk no_io_timeout b))
            (passwd-IsLine blk.auth_mode pw i);
      parsed =
          stuff_lines-append (a ++ c) d blank_info
          ∙ ap (λ (o : Outcome MetaInfo). o >>= λ i. stuff_lines d i)
              (stuff_lines-append a c blank_info
                ∙ ap (λ (o : Outcome MetaInfo). o >>= λ i. stuff_lines c i)
                    (header-read blk gbid prio_path b g p)
                ∙ entry-read blk no_io_timeout gbid prio_path b)
          ∙ passwd-read blk.auth_mode (entry_info blk no_io_timeout gbid prio_path) pw refl i.fits;
      distinct = tt;
      hosts = tt;
    }
