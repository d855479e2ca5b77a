-- ===== src/Delete/Counted.antt =====
-- A delete and the counter of the host that its block was counted for (`block_delete_cli_1_svc_st`,
-- rpc/block_delete.c).
use mathlib.Core.Path.{subst}
use gluster_block.Prelude.{
  pos, ℕ, ◌+◌, ◌<◌, ◌≤◌, ◌≡◌, ◌⊎◌, ◌∙◌, refl, ap, Bool, true, false, Option, none, some, List, [],
  ◌∷◌, All, ℤ, is_zero, Bool-cases, Option-cases, inl, inr, arith, length,
}
use gluster_block.Text.{Text}
use gluster_block.Text.Decimal.{size_max}
use gluster_block.Lock.{unlock_code}
use gluster_block.Meta.{MetaInfo, Outcome, ok, fail, crash, parse_rs_status}
use gluster_block.Meta.Merge.{Merges}
use gluster_block.Meta.File.{IsFile, get_meta_info-IsFile}
use gluster_block.Meta.Servers.{get_list_from_info}
use gluster_block.Prio.{Attrs, attr_name}
use gluster_block.Prio.Counters.{IsCounting, balance, count_call, dec, dec-Counts}
use gluster_block.Delete.{Disk, Cleaned}
use gluster_block.Delete.Gone.{IsGone}
use gluster_block.Delete.Safety.{threads_of, lines_of, disk_of, clean_up_safe}
use gluster_block.Delete.Cli.{
  DeleteRun, Deleted, delete_stop, delete_counter, delete_clean_up, delete_checks, delete_locked,
  delete_cli,
}

-- The counters when a block of the host is gone; a block without a host is not counted.
abbrev pub counted_down : Text → (Text → ℕ) → Text → ℕ
counted_down [] f a = f a
counted_down (c ∷ s) f a = count_call (dec (c ∷ s)) f a

-- Either the delete failed and no counter has changed, or it succeeded and the counters went down.
abbrev pub Counted : (gone : Type 0) → Text → Attrs → Deleted → Type 0
Counted gone path attrs d =
    (is_zero d.err_code ≡ false) × (d.attrs ≡ attrs)
    ⊎ gone
      × (is_zero d.err_code ≡ true)
      × ((a : Text) → balance d.attrs a ≡ counted_down path (balance attrs) a)

stop-code :
    (k : ℤ) (disk : Disk) (attrs : Attrs) (d : Deleted)
    → ok (delete_stop k disk attrs) ≡ ok d
    → is_zero k ≡ false
    → (is_zero d.err_code ≡ false) × (d.attrs ≡ attrs)
stop-code k disk attrs d h z = (ground (arith, h, z), ground (arith, h))

stop-Counted :
    (gone : Type 0) (path : Text) (k : ℤ) (disk : Disk) (attrs : Attrs) (d : Deleted)
    → ok (delete_stop k disk attrs) ≡ ok d
    → is_zero k ≡ false
    → Counted gone path attrs d
stop-Counted gone path k disk attrs d h z = inl (stop-code k disk attrs d h z)

module _ (run : DeleteRun) (attrs : Attrs) (settable : run.settable ≡ true)
    (counting : IsCounting attrs) (small : (a : Text) → balance attrs a ≤ size_max)
    (d : Deleted) where
  path-Counted :
      (gone : Type 0) (info : MetaInfo) (c : Cleaned) (path : Text)
      → info.prio_path ≡ path
      → is_zero c.ret ≡ true
      → gone
      → delete_counter run info c attrs ≡ ok d
      → Counted gone path attrs d
  unfolding delete_counter
  path-Counted gone info c [] e z g h =
      let h' = rw (delete_counter, z, e) at h in
      let k : d.attrs ≡ attrs = ground (arith, h') in
      inr (g, ground (arith, h', z), λ a. ap (λ x. balance x a) k)
  path-Counted gone info c (b ∷ s) e z g h =
      let (attrs', k, (i, n)) =
        dec-Counts (b ∷ s) attrs (attrs (attr_name (b ∷ s))) refl (counting (attr_name (b ∷ s)))
          counting (small (b ∷ s)) in
      let h' = rw (delete_counter, z, e, settable, k) at h in
      let q : d.attrs ≡ attrs' = ground (arith, h') in
      inr (g, ground (arith, h', z), λ a. ap (λ x. balance x a) q ∙ n a)

  counter-Counted :
      (gone : Type 0) (info : MetaInfo) (c : Cleaned)
      → gone ⊎ (is_zero c.ret ≡ false)
      → delete_counter run info c attrs ≡ ok d
      → Counted gone info.prio_path attrs d
  unfolding delete_counter
  counter-Counted gone info c g h = elim (Bool-cases (is_zero c.ret)) [
    | inl z ↦ elim g [
      | inl y ↦ path-Counted gone info c info.prio_path refl z y h
      | inr y ↦ absurd (ground (arith, y, z))
    ]
    | inr z ↦
        let h' = rw (delete_counter, z) at h in inl (ground (arith, h', z), ground (arith, h'))
  ]

  clean_up-Counted :
      {ls : List Text} {raw : MetaInfo} (unlink : Bool)
      → IsFile ls raw
      → Merges (threads_of run.cleanup raw) (lines_of run.cleanup raw)
      → length ls < run.cleanup.reads
      → length ls + length (lines_of run.cleanup raw) < run.cleanup.reads_again
      → delete_clean_up run false unlink (parse_rs_status raw) (disk_of ls) attrs ≡ ok d
      → Counted (All (IsGone run.cleanup.threads) raw.nodes) raw.prio_path attrs d
  unfolding delete_clean_up parse_rs_status
  clean_up-Counted {ls} {raw} unlink f m r r' h =
      let (c, e, s) =
        clean_up_safe run.cleanup unlink (record { d_attempt = none; d_success = none }) f m r r' in
      let h' = rw (delete_clean_up, e) at h in
      counter-Counted (All (IsGone run.cleanup.threads) raw.nodes) (parse_rs_status raw) c
        (elim s [ inl g ↦ inl g | inr (z, k) ↦ inr z ]) h'

  checks-Counted :
      {ls : List Text} {raw : MetaInfo} (unlink : Bool)
      → IsFile ls raw
      → Merges (threads_of run.cleanup raw) (lines_of run.cleanup raw)
      → length ls < run.cleanup.reads
      → length ls + length (lines_of run.cleanup raw) < run.cleanup.reads_again
      → delete_checks run false unlink (parse_rs_status raw) (disk_of ls) attrs ≡ ok d
      → Counted (All (IsGone run.cleanup.threads) raw.nodes) raw.prio_path attrs d
  unfolding delete_checks
  checks-Counted {ls} {raw} unlink f m r r' h =
      let info = parse_rs_status raw in
      elim (Option-cases (get_list_from_info info)) [
        | inl e ↦ let h' = rw (delete_checks, e) at h in absurd (ground (arith, h'))
        | inr (hosts, e) ↦ elim (Bool-cases (is_zero run.caps)) [
          | inl c ↦ let h' = rw (delete_checks, e, c) at h in clean_up-Counted unlink f m r r' h'
          | inr c ↦
              let h' = rw (delete_checks, e, c) at h in
              stop-Counted _ raw.prio_path run.caps (disk_of ls) attrs d h' c
        ]
      ]

ok-inj : (x y : Deleted) → ok x ≡ ok y → x ≡ y
ok-inj x y h = ground (arith, h)

ended : (o : Outcome Deleted) → ((q : Deleted) × (o ≡ ok q)) ⊎ ((o ≡ fail) ⊎ (o ≡ crash))
ended (ok q) = inl (q, refl)
ended fail = inr (inl refl)
ended crash = inr (inr refl)

locked-Counted :
    {ls : List Text} {raw : MetaInfo} (run : DeleteRun) (unlink : Bool) (attrs : Attrs)
    (d : Deleted)
    → run.settable ≡ true
    → IsCounting attrs
    → ((a : Text) → balance attrs a ≤ size_max)
    → IsFile ls raw
    → Merges (threads_of run.cleanup raw) (lines_of run.cleanup raw)
    → length ls < run.reads
    → length ls < run.cleanup.reads
    → length ls + length (lines_of run.cleanup raw) < run.cleanup.reads_again
    → delete_locked run false unlink (disk_of ls) attrs ≡ ok d
    → Counted (All (IsGone run.cleanup.threads) raw.nodes) raw.prio_path attrs d
unfolding delete_locked
locked-Counted {ls} {raw} run unlink attrs d s c b f m r0 r r' h =
    elim (Bool-cases (is_zero run.access)) [
      | inl a ↦
          let h' = rw (delete_locked, a, get_meta_info-IsFile run.reads run.buffer f r0) at h in
          checks-Counted run attrs s c b d unlink f m r r' h'
      | inr a ↦
          let h' = rw (delete_locked, a) at h in
          stop-Counted _ raw.prio_path run.access (disk_of ls) attrs d h' a
    ]

-- The same with the code that the unlocking leaves.
abbrev pub Released : (unlock : Option Text) (gone : Type 0) → Text → Attrs → Deleted → Type 0
Released unlock gone path attrs d =
    (is_zero d.err_code ≡ false) × (d.attrs ≡ attrs)
    ⊎ gone
      × (is_zero d.err_code ≡ is_zero (unlock_code unlock (pos 0)))
      × ((a : Text) → balance d.attrs a ≡ counted_down path (balance attrs) a)

released :
    (unlock : Option Text) (gone : Type 0) (path : Text) (attrs : Attrs) (d : Deleted)
    → Counted gone path attrs d
    → Released unlock gone path attrs (record d { err_code = unlock_code unlock d.err_code })
released none gone path attrs d h = h
released (some e) gone path attrs d (inl (z, k)) = inl (refl, k)
released (some e) gone path attrs d (inr (g, z, n)) = inr (g, refl, n)

-- A delete that is not forced, of a block whose file consists of short lines that are read to nodes with
-- distinct addresses, with threads whose lines interleave in any way, with enough reads, with counters that
-- hold numbers of 64 bits and can be written, and that does not crash: either it ends with an error and
-- leaves the counters alone; or each host had nothing to delete, or answered that it deleted the block, or
-- that it does not know it, the counter of the host that the block was counted for is one less, down to 0, no
-- other counter has changed, and the delete ends with 0 if and only if the unlocking works.
pub delete_cli-Counted :
    {ls : List Text} {raw : MetaInfo} (run : DeleteRun) (unlink : Bool) (attrs : Attrs)
    (d : Deleted)
    → run.settable ≡ true
    → IsCounting attrs
    → ((a : Text) → balance attrs a ≤ size_max)
    → IsFile ls raw
    → Merges (threads_of run.cleanup raw) (lines_of run.cleanup raw)
    → length ls < run.reads
    → length ls < run.cleanup.reads
    → length ls + length (lines_of run.cleanup raw) < run.cleanup.reads_again
    → delete_cli run false unlink (disk_of ls) attrs ≡ ok d
    → Released run.unlock (All (IsGone run.cleanup.threads) raw.nodes) raw.prio_path attrs d
unfolding delete_cli
delete_cli-Counted {ls} {raw} run unlink attrs d s c b f m r0 r r' h =
    elim (Bool-cases (is_zero run.entered)) [
      | inr n ↦
          let h' = rw (delete_cli, n) at h in inl (stop-code run.entered (disk_of ls) attrs d h' n)
      | inl n ↦
          let h' = rw (delete_cli, n) at h in
          elim (ended (delete_locked run false unlink (disk_of ls) attrs)) [
            | inl (q, e) ↦
                let k = rw e at h' in
                let g : record q { err_code = unlock_code run.unlock q.err_code } ≡ d =
                  ok-inj _ d k in
                subst
                  (Released run.unlock (All (IsGone run.cleanup.threads) raw.nodes) raw.prio_path
                    attrs)
                  g
                  (released run.unlock _ raw.prio_path attrs q
                    (locked-Counted run unlink attrs q s c b f m r0 r r' e))
            | inr (inl e) ↦ let k = rw e at h' in absurd (cc)
            | inr (inr e) ↦ let k = rw e at h' in absurd (cc)
          ]
    ]
