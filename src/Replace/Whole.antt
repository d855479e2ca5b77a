-- ===== src/Replace/Whole.antt =====
-- A replace from the request to the file (`block_replace_cli_1_svc_st`, rpc/block_replace.c).
use mathlib.Core.Path.{subst}
use mathlib.Core.List.{append_assoc}
use gluster_block.Prelude.{
  ◌<◌, ◌≡◌, ◌∙◌, refl, ap, sym, Bool, false, none, some, List, [], ◌∷◌, ◌++◌, arith, All,
  All-append, map, if◌then◌else◌, pos, Bool-cases, inl, inr, length, int_eq_iff,
}
use gluster_block.Text.{Text, codes}
use gluster_block.Meta.{NodeInfo, MetaInfo, ok, rs_nodes, parse_rs_status}
use gluster_block.Meta.Lines.{IsHost}
use gluster_block.Meta.Journal.{Entry, entry_line, journal, journal-Distinct}
use gluster_block.Meta.Merge.{Merges, IsSchedule}
use gluster_block.Meta.Read.{render}
use gluster_block.Meta.File.{IsFile, IsFile-lines, IsFile-line, render-append, get_meta_info-IsFile}
use gluster_block.Meta.Restamp.{touch_all}
use gluster_block.Meta.Restamp.Grown.{Grown, nothing, one, journal-Grown}
use gluster_block.Meta.Valid.{HasColon, parse_valid_servers-lines}
use gluster_block.Remote.{updated, delete_remote}
use gluster_block.Remote.Laws.{IsGood, delete_remote_exit}
use gluster_block.Remote.Reread.{hosts-touch_all}
use gluster_block.Create.Header.{stuff-prio_path}
use gluster_block.Create.Lines.{value-IsLine}
use gluster_block.Replace.{ReplaceCli, ReplaceResp, has_passwd, step_reply, step_threads}
use gluster_block.Replace.Slots.{staying, filled}
use gluster_block.Replace.Settled.{
  IsServing, IsReplaced, movers, threads, replace_lines-good, threads-IsReplaced,
}
use gluster_block.Replace.First.{r_check, any_portal-replaced, replace_node_remote_async-first}
use gluster_block.Replace.Cli.{
  ReplaceRun, ReplaceEnd, replace_unlock, replace_locked, replace_cli, replace_hosts, replace_lines,
  prio_update, is_prio, prio_text, is_written_off,
}

grown-hosts :
    (new : Text) {ns : List NodeInfo} → IsHost new → Grown new ns → All (λ n. IsHost n.addr) ns
grown-hosts new i nothing = tt
grown-hosts new i (one n e) = (rw e i, tt)

-- Nothing goes wrong: the checks pass, every update works and every call returns 0.
pub record IsSmooth (run : ReplaceRun) (cli : ReplaceCli) (stay : List Text) : Type 0 where
  pub entered : run.entered ≡ pos 0
  pub unlock : run.unlock ≡ none
  pub access : run.access ≡ pos 0
  pub caps : run.caps ≡ pos 0
  pub prio : run.prio_line ≡ updated
  pub schedule : IsSchedule run.schedule
  pub new_good : IsGood (run.answers cli.new_node)
  pub old_good : IsGood (run.answers cli.old_node)
  pub stay_good : All (λ h. IsGood (run.answers h)) stay

-- With the lock, only the unlocking is left.
pub replace_cli-entered :
    (run : ReplaceRun) (cli : ReplaceCli) (file : Text) (m : ReplaceEnd)
    → run.entered ≡ pos 0
    → replace_locked run cli file ≡ ok m
    → replace_cli run cli file ≡ ok (replace_unlock run cli m)
unfolding replace_cli
replace_cli-entered run cli file m n e = rw e (rw n refl)

-- The checks pass.
pub replace_locked-passes :
    (run : ReplaceRun) (cli : ReplaceCli) {ls : List Text} {raw : MetaInfo}
    → IsFile ls raw
    → run.access ≡ pos 0
    → run.caps ≡ pos 0
    → All HasColon ls
    → length ls < run.valid_reads
    → length ls < run.reads
    → replace_locked run cli (render ls) ≡ replace_hosts run cli (parse_rs_status raw) (render ls)
unfolding replace_locked
replace_locked-passes run cli {ls} f a p c v k =
    let list =
      parse_valid_servers-lines (if cli.force then some cli.old_node else none) ls run.valid_reads
        run.valid_buffer none f.lines c v in
    let a' = (int_eq_iff run.access (pos 0)).1 a in
    let p' = (int_eq_iff run.caps (pos 0)).1 p in
    rw (replace_locked, a')
      (rw (replace_locked, list, p')
        (rw (replace_locked, get_meta_info-IsFile run.reads run.buffer f k) refl))

lines_lem :
    (run : ReplaceRun) (cli : ReplaceCli) (info : MetaInfo) (m : ReplaceEnd)
    → is_written_off m.reply ≡ false
    → replace_lines run cli info m ≡ prio_update run cli info m
unfolding replace_lines
lines_lem run cli info m e = rw (replace_lines, e) refl

module _ (run : ReplaceRun) (cli : ReplaceCli) {ls : List Text} {raw : MetaInfo} (f : IsFile ls raw)
    (b : IsServing cli raw) where
  abbrev stay : List Text
  stay = staying cli.old_node (rs_nodes raw.nodes)

  abbrev auth : Bool
  auth = has_passwd (parse_rs_status raw)

  abbrev r : Bool
  r = r_check run.answers cli raw b

  -- The lines of the threads.
  abbrev pub written : List Entry
  written = run.schedule (step_threads false false r auth run.answers cli (movers r stay))

  step_threads_lem :
      step_threads false false r auth run.answers cli (movers r stay)
      ≡ threads auth r run.answers cli raw
  step_threads_lem = elim (Bool-cases r) [ inl e ↦ rw e refl | inr e ↦ rw e refl ]

  module _ (s : IsSmooth run cli stay) where
    pub merged : Merges (threads auth r run.answers cli raw) written
    merged =
        subst (λ ts. Merges ts written) step_threads_lem
          (s.schedule (step_threads false false r auth run.answers cli (movers r stay)))

    pub journal_shape :
        (more : List NodeInfo) × (journal written raw.nodes
          ≡ map (touch_all written) raw.nodes ++ more)
        × Grown cli.new_node more
    journal_shape =
        journal-Grown cli.new_node written raw.nodes b.new_host f.distinct b.fresh
          (replace_lines-good auth r run.answers cli raw f b merged).1

    -- The file with the lines of the threads is a file again.
    pub written-IsFile :
        IsFile (ls ++ map entry_line written) (record raw { nodes = journal written raw.nodes })
    written-IsFile =
        let (v, c) = replace_lines-good auth r run.answers cli raw f b merged in
        let (more, e, g) = journal_shape in
        IsFile-lines written f v refl (journal-Distinct written raw.nodes v f.distinct) (
          rw e (
            All-append (λ (n : NodeInfo). IsHost n.addr) (map (touch_all written) raw.nodes) more
              (hosts-touch_all written raw.nodes f.hosts) (grown-hosts cli.new_node b.new_host g)))

    abbrev replied : ReplaceResp
    replied = step_reply false false r auth run.answers cli raw.mpath (filled stay) (movers r stay)

    -- The file and the variables when the threads have ended.
    abbrev ended : ReplaceEnd
    ended = record {
      err_code = pos 0;
      err_msg = none;
      reply = some replied;
      file = render ls ++ render (map entry_line written);
    }

    delete_ok : (delete_remote cli.old_node (run.answers cli.old_node)).exit ≡ pos 0
    delete_ok =
        (delete_remote_exit cli.old_node (run.answers cli.old_node)).1
          (s.old_good.first, s.old_good.ret, s.old_good.second)

    not_written_off : is_written_off (some replied) ≡ false
    not_written_off = elim (Bool-cases cli.force) [
      | inl e ↦ rw (e, delete_ok) refl
      | inr e ↦ rw e refl
    ]

    hosts_lem :
        replace_hosts run cli (parse_rs_status raw) (render ls)
        ≡ ok (prio_update run cli (parse_rs_status raw) ended)
    unfolding replace_hosts
    hosts_lem =
        rw (replace_hosts, replace_node_remote_async-first run.answers cli raw b)
          (ap ok (lines_lem run cli (parse_rs_status raw) ended not_written_off))

    pub replace_cli_lem :
        All HasColon ls
        → length ls < run.valid_reads
        → length ls < run.reads
        → replace_cli run cli (render ls) ≡ ok (prio_update run cli (parse_rs_status raw) ended)
    replace_cli_lem c v k =
        replace_cli-entered run cli (render ls) _ s.entered
          (replace_locked-passes run cli f s.access s.caps c v k ∙ hosts_lem)
        ∙ (rw s.unlock refl)

    -- The line with the preferred path.
    abbrev prio_of : Text
    prio_of = codes "PRIOPATH: " ++ cli.new_node

    file_lem : ended.file ≡ render (ls ++ map entry_line written)
    file_lem = sym (render-append ls (map entry_line written))

    prio_file_lem :
        ended.file ++ prio_text cli ≡ render ((ls ++ map entry_line written) ++ prio_of ∷ [])
    unfolding render
    prio_file_lem =
        ap (λ (t : Text). t ++ prio_text cli) file_lem
        ∙ sym (
            render-append (ls ++ map entry_line written) (prio_of ∷ [])
            ∙ ap (λ (t : Text). render (ls ++ map entry_line written) ++ t)
                (append_assoc (codes "PRIOPATH: ") cli.new_node (codes "\n")))

    statuses : IsReplaced auth cli stay (journal written raw.nodes)
    statuses =
        threads-IsReplaced auth r run.answers cli raw f b merged s.new_good s.old_good s.stay_good
          (any_portal-replaced raw stay)

    abbrev written_raw : MetaInfo
    written_raw = record raw { nodes = journal written raw.nodes }

    -- A block whose file consists of short lines with colons and is read to distinct hosts, with the new node
    -- not among them, the old one listed and not cleaned up, and `mpath` hosts with it: if nothing goes wrong,
    -- then however the threads take turns, the handler returns 0 with no message, and its file is read, as a
    -- file of that kind again, to the new node configured, the old one cleaned up, and RPSUCCESS for each
    -- other host that serves; the preferred path is the new node if it was the old one, and else as it was.
    pub replace_cli_succeeds :
        All HasColon ls
        → length ls < run.valid_reads
        → length ls < run.reads
        → (m : ReplaceEnd) × (ls' : List Text) × (raw' : MetaInfo) × (replace_cli run cli
              (render ls)
            ≡ ok m)
          × (m.err_code ≡ pos 0)
          × (m.err_msg ≡ none)
          × (m.file ≡ render ls')
          × IsFile ls' raw'
          × IsReplaced auth cli stay raw'.nodes
          × (raw'.prio_path ≡ (
              if is_prio (parse_rs_status raw) cli.old_node then cli.new_node else raw.prio_path))
    unfolding prio_update
    replace_cli_succeeds c v k = elim (Bool-cases (is_prio (parse_rs_status raw) cli.old_node)) [
      | inl e ↦ (
        record ended { file = ended.file ++ prio_text cli },
        (ls ++ map entry_line written) ++ prio_of ∷ [],
        record written_raw { prio_path = cli.new_node },
        replace_cli_lem c v k ∙ (rw (prio_update, e, s.prio) refl),
        refl,
        refl,
        prio_file_lem,
        IsFile-line prio_of written-IsFile
            (value-IsLine (codes "PRIOPATH: ") cli.new_node
              (λ p. cc, omega arith, omega arith, omega arith)
              (record { text = b.new_host.text; fits = b.new_host.fits }))
            (stuff-prio_path written_raw cli.new_node b.new_host.fits) refl,
        statuses,
        rw e refl,
      )
      | inr e ↦ (
        ended,
        ls ++ map entry_line written,
        written_raw,
        replace_cli_lem c v k ∙ (rw (prio_update, e) refl),
        refl,
        refl,
        file_lem,
        written-IsFile,
        statuses,
        rw e refl,
      )
    ]
