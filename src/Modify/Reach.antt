-- ===== src/Modify/Reach.antt =====
-- How far a switch of authentication comes (`block_modify_cli_1_svc_st`, rpc/block_modify.c).
use mathlib.Core.List.{append-nil, append_assoc}
use gluster_block.Prelude.{
  some, none, Option, pos, ◌<◌, ◌≡◌, ◌⊎◌, ◌∙◌, refl, sym, Bool, true, false, List, [], ◌∷◌, ◌++◌, ℤ,
  pos, is_zero, Bool-cases, Option-cases, inl, inr, arith, length, ◌==◌,
}
use gluster_block.Text.{Text, codes}
use gluster_block.Lock.{unlock_code}
use gluster_block.Meta.{Outcome, fail, crash, ◌>>=◌, MetaInfo, Outcome, ok, parse_rs_status}
use gluster_block.Meta.Read.{render}
use gluster_block.Meta.File.{IsFile, get_meta_info-IsFile}
use gluster_block.Meta.Servers.{get_list_from_info}
use gluster_block.Remote.{Update, updated, lost, unclosed}
use gluster_block.Modify.{
  ModifyRun, Modified, update_file, modify_threads, modify_password, modify_checks, modify_locked,
  modify_cli, modify_start,
}

-- The line about the password that a run writes.
abbrev pub password_lines : (auth : Bool) (uuid old : Text) → List Text
password_lines true uuid [] = (codes "PASSWORD: " ++ uuid) ∷ []
password_lines true uuid (c ∷ s) = []
password_lines false uuid old = codes "PASSWORD: " ∷ []

render-line : (l r : Text) → (l ++ (r ++ 10 ∷ [])) ≡ render ((l ++ r) ∷ [])
unfolding render
render-line l r = sym (append_assoc l r (10 ∷ []))

-- The handler stopped before the threads, with an error.
pub record Stopped (m : Modified) : Type 0 where
  pub asyncret : m.asyncret ≡ pos 0
  pub rollback : m.rollback ≡ false
  pub err_code : is_zero m.err_code ≡ false

-- The handler came to the threads, with the text in the file.
pub record Reached (run : ModifyRun) (auth : Bool) (info : MetaInfo) (text : Text) (m : Modified)
    : Type 0 where
  pub before : Modified
  pub threads : modify_threads run auth info before ≡ ok m
  pub rollback : before.rollback ≡ false
  pub file : before.file ≡ text

stopped :
    (k : ℤ) {file : Text} (m : Modified)
    → ok (record (modify_start file) { err_code = k }) ≡ ok m
    → is_zero k ≡ false
    → Stopped m
stopped k m h z = record {
  asyncret = ground arith;
  rollback = ground arith;
  err_code = ground (arith, z);
}

module _ (run : ModifyRun) (auth : Bool) (info : MetaInfo) where
  -- What follows one written line.
  update-Reached :
      (u : Update) (t : Text) (pw : Modified → Text) (m0 m : Modified)
      (rest : Modified → Outcome Modified)
      → update_file u t m0 rest ≡ ok m
      → m0.asyncret ≡ pos 0
      → m0.rollback ≡ false
      → ((m' : Modified) → rest m' ≡ modify_threads run auth info (record m' { passwd = pw m' }))
      → Reached run auth info (m0.file ++ t) m ⊎ Stopped m
  unfolding update_file
  update-Reached updated t pw m0 m rest h a r k =
      let m' = record m0 { err_code = pos 0; file = m0.file ++ t } in
      inl (record {
        before = record m' { passwd = pw m' };
        threads = sym (k m') ∙ h;
        rollback = r;
        file = refl;
      })
  update-Reached (lost e) t pw m0 m rest h a r k =
      inr (record { asyncret = ground arith; rollback = ground arith; err_code = ground arith })
  update-Reached (unclosed e) t pw m0 m rest h a r k =
      inr (record { asyncret = ground arith; rollback = ground arith; err_code = ground arith })

fresh-Reached :
    (run : ModifyRun) (info : MetaInfo) (m0 m : Modified) (pw : Text)
    → info.passwd ≡ pw
    → modify_password run true info m0 ≡ ok m
    → m0.asyncret ≡ pos 0
    → m0.rollback ≡ false
    → Reached run true info (m0.file ++ render (password_lines true run.uuid pw)) m ⊎ Stopped m
unfolding modify_password render
fresh-Reached run info m0 m [] e h a r =
    let h' = rw (modify_password, e) at h in
    rw (← render-line (codes "PASSWORD: ") run.uuid) (
      update-Reached run true info run.password (codes "PASSWORD: " ++ (run.uuid ++ codes "\n"))
        (λ m'. run.uuid) m0 m (λ m'. modify_threads run true info (record m' { passwd = run.uuid }))
        h' a r (λ m'. refl))
fresh-Reached run info m0 m (c ∷ w) e h a r =
    let h' = rw (modify_password, e) at h in
    inl (record {
      before = record m0 { passwd = c ∷ w };
      threads = h';
      rollback = r;
      file = sym (append-nil m0.file);
    })

password-Reached :
    (run : ModifyRun) (auth : Bool) (info : MetaInfo) (m0 m : Modified)
    → modify_password run auth info m0 ≡ ok m
    → m0.asyncret ≡ pos 0
    → m0.rollback ≡ false
    → Reached run auth info (m0.file ++ render (password_lines auth run.uuid info.passwd)) m
      ⊎ Stopped m
unfolding modify_password render
password-Reached run true info m0 m h a r = fresh-Reached run info m0 m info.passwd refl h a r
password-Reached run false info m0 m h a r =
    update-Reached run false info run.password (codes "PASSWORD: \n") (λ m'. m'.passwd) m0 m
      (modify_threads run false info) h a r (λ m'. refl)

checks-Reached :
    (run : ModifyRun) (auth : Bool) (info : MetaInfo) (file : Text) (m : Modified)
    → modify_checks run auth info (modify_start file) ≡ ok m
    → (is_zero run.caps ≡ true)
        × Reached run auth info (file ++ render (password_lines auth run.uuid info.passwd)) m
      ⊎ Stopped m
unfolding modify_checks
checks-Reached run auth info file m h = elim (Option-cases (get_list_from_info info)) [
  | inl e ↦ let h' = rw (modify_checks, e) at h in absurd (ground (arith, h'))
  | inr (hosts, e) ↦ elim (Bool-cases (length hosts.written == info.mpath)) [
    | inl l ↦ elim (Bool-cases (is_zero run.caps)) [
      | inl c ↦
          let h' = rw (modify_checks, e, l, c) at h in
          elim (password-Reached run auth info _ m h' refl refl) [
            | inl p ↦ inl (c, p)
            | inr s ↦ inr s
          ]
      | inr c ↦ let h' = rw (modify_checks, e, l, c) at h in inr (stopped _ m h' c)
    ]
    | inr l ↦ let h' = rw (modify_checks, e, l) at h in inr (stopped _ m h' refl)
  ]
]

-- A switch of a block whose file consists of short lines that are read to nodes with distinct addresses,
-- with enough reads, that does not crash: either it stopped with an error before any thread, or the volume
-- gave access, all hosts have the capability, and the threads ran on the file with the line about the
-- password.
pub modify_locked-Reached :
    {ls : List Text} {raw : MetaInfo} (run : ModifyRun) (auth : Bool) (m : Modified)
    → IsFile ls raw
    → length ls < run.reads
    → modify_locked run auth (render ls) ≡ ok m
    → (is_zero run.access ≡ true)
        × (is_zero run.caps ≡ true)
        × Reached run auth
            (parse_rs_status raw)
            (render ls ++ render (password_lines auth run.uuid raw.passwd))
            m
      ⊎ Stopped m
unfolding modify_locked parse_rs_status
modify_locked-Reached {ls} {raw} run auth m f r h = elim (Bool-cases (is_zero run.access)) [
  | inl a ↦
      let h' = rw (modify_locked, a, get_meta_info-IsFile run.reads run.buffer f r) at h in
      elim (checks-Reached run auth (parse_rs_status raw) (render ls) m h') [
        | inl (c, p) ↦ inl (a, c, p)
        | inr s ↦ inr s
      ]
  | inr a ↦ let h' = rw (modify_locked, a) at h in inr (stopped _ m h' a)
]

unlocked :
    (unlock : Option Text) (o : Outcome Modified) (m : Modified)
    → (o >>= λ r. ok (record r { err_code = unlock_code unlock r.err_code })) ≡ ok m
    → m.err_code ≡ pos 0
    → o ≡ ok m
unlocked none (ok r) m h z = h
unlocked (some e) (ok r) m h z = absurd (ground (arith, h, z))
unlocked unlock fail m h z = absurd (ground (arith, h))
unlocked unlock crash m h z = absurd (ground (arith, h))

-- Without an error, the lock was taken and released.
pub modify_cli-locked :
    (run : ModifyRun) (auth : Bool) (file : Text) (m : Modified)
    → modify_cli run auth file ≡ ok m
    → m.err_code ≡ pos 0
    → modify_locked run auth file ≡ ok m
unfolding modify_cli
modify_cli-locked run auth file m h z = elim (Bool-cases (is_zero run.entered)) [
  | inl n ↦
      let h' = rw (modify_cli, n) at h in unlocked run.unlock (modify_locked run auth file) m h' z
  | inr n ↦ let h' = rw (modify_cli, n) at h in absurd (ground (arith, h', n, z))
]
