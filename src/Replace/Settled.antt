-- ===== src/Replace/Settled.antt =====
-- The hosts of a block when the threads of a replace have ended (rpc/block_replace.c).
use gluster_block.Prelude.{
  ◌+◌, ◌≡◌, ◌∙◌, refl, ap, Bool, true, false, Option, some, List, [], ◌∷◌, All, All-both, All-left,
  All-right, if◌then◌else◌, Bool-cases, inl, inr, ◌⊎◌, length,
}
use gluster_block.Text.{Text, str_eq, after_char}
use gluster_block.Enums.Status
use gluster_block.Enums.Status.{MetaStatus, status_name, status_parse}
use gluster_block.Meta.{NodeInfo, MetaInfo, rs_nodes}
use gluster_block.Meta.Nodes.{Absent, status_of}
use gluster_block.Meta.Lines.{IsHost}
use gluster_block.Meta.Journal.{Entry, IsEntry, last_status, journal, status_of-journal}
use gluster_block.Meta.Merge.{
  Thread, Merges, IsOwn, DistinctHosts, str_eq_sym, Settles, Merges-Settles, Merges-All, NotAbout,
  others-NotAbout,
}
use gluster_block.Meta.Restamp.{has}
use gluster_block.Meta.Restamp.Grown.{Concerns}
use gluster_block.Meta.Known.{known_as, known-has, has-All, rs-All, rs-Distinct}
use gluster_block.Meta.File.{IsFile, status_name-IsStatusText}
use gluster_block.Meta.Shown.{shown}
use gluster_block.Remote.{Script, note_status, delete_remote}
use gluster_block.Remote.Fleet.{known}
use gluster_block.Remote.Laws.{
  IsGood, create_remote-About, create_remote-Writes, replace_portal_remote-status,
  delete_remote-status,
}
use gluster_block.Create.Success.{done_name, configured-last}
use gluster_block.Replace.{
  create_step, portal_step, delete_step, step_threads, ReplaceCli, is_cleaned,
}
use gluster_block.Replace.Slots.{staying}
use gluster_block.Replace.Steps.{
  rest_threads, rest-IsOwn, rest-apart, rest-DistinctHosts, rest-writes, staying-not_old,
  staying-every, staying-NoRepeat,
}

-- The block before: the old node is listed and not cleaned up, the new one is not listed, and with the
-- hosts that stay and the old one `mpath` is reached.
pub record IsServing (cli : ReplaceCli) (raw : MetaInfo) : Type 0 where
  pub new_host : IsHost cli.new_node
  pub fresh : Absent cli.new_node raw.nodes
  pub old_status : MetaStatus
  pub old_known : known_as (status_of cli.old_node raw.nodes) ≡ some old_status
  pub old_serves : is_cleaned (some old_status) ≡ false
  pub room : raw.mpath ≡ length (staying cli.old_node (rs_nodes raw.nodes)) + 1

-- The block after, as a reader of the file sees it.
pub record IsReplaced (auth : Bool) (cli : ReplaceCli) (stay : List Text) (ns : List NodeInfo)
    : Type 0 where
  pub created :
      known_as (status_of cli.new_node ns)
      ≡ some (if auth then Status.auth_enforced else Status.config_success)
  pub deleted : known_as (status_of cli.old_node ns) ≡ some Status.cleanup_success
  pub moved : All (λ h. known_as (status_of h ns) ≡ some Status.rp_success) stay

-- The hosts whose portals are replaced.
abbrev pub movers : Bool → List Text → List Text
movers r_check stay = if r_check then stay else []

created_name :
    (auth : Bool)
    → known_as (some (done_name auth))
      ≡ some (if auth then Status.auth_enforced else Status.config_success)
unfolding shown status_parse after_char
created_name true = refl
created_name false = refl

cleaned_name : known_as (some (status_name Status.cleanup_success)) ≡ some Status.cleanup_success
unfolding shown status_parse after_char
cleaned_name = refl

moved_name : known_as (some (status_name Status.rp_success)) ≡ some Status.rp_success
unfolding shown status_parse after_char
moved_name = refl

cleaned-last :
    (h : Text) (s : Script) (old : Option Text)
    → IsGood s
    → last_status h (delete_remote h s).writes old ≡ some (status_name Status.cleanup_success)
cleaned-last h s old g = delete_remote-status h s old ∙ (rw (g.first, g.ret, g.second) refl)

rest-split :
    (P : Thread → Type 0) (answers : Text → Script) (hs : List Text) (old_node : Text)
    → All P (rest_threads answers hs old_node)
    → All (λ h. P (portal_step answers h)) hs × P (delete_step answers old_node)
rest-split P answers [] old_node a = (tt, a.0)
rest-split P answers (h ∷ hs) old_node a =
    let (p, q) = rest-split P answers hs old_node a.1 in ((a.0, p), q)

last_status-NotAbout :
    (h : Text) (es : List Entry) (old : Option Text) → NotAbout h es → last_status h es old ≡ old
unfolding last_status
last_status-NotAbout h [] old n = refl
last_status-NotAbout h (e ∷ es) old n = rw n.0 (last_status-NotAbout h es old n.1)

module _ (auth r_check : Bool) (answers : Text → Script) (cli : ReplaceCli) (raw : MetaInfo) where
  abbrev stay : List Text
  stay = staying cli.old_node (rs_nodes raw.nodes)

  abbrev pub threads : List Thread
  threads =
      create_step auth answers cli.new_node
      ∷ rest_threads answers (movers r_check stay) cli.old_node

  same_threads : step_threads false false r_check auth answers cli stay ≡ threads
  same_threads = elim (Bool-cases r_check) [ inl e ↦ rw e refl | inr e ↦ rw e refl ]

  movers-All : (P : Text → Type 0) → All P stay → All P (movers r_check stay)
  movers-All P a = elim (Bool-cases r_check) [ inl e ↦ rw e a | inr e ↦ rw e tt ]

  module _ {ls : List Text} (f : IsFile ls raw) (b : IsServing cli raw) where
    old_listed : has cli.old_node raw.nodes ≡ true
    old_listed = known-has cli.old_node raw.nodes b.old_status b.old_known

    stay-apart : All (λ k. str_eq k cli.new_node ≡ false) stay
    stay-apart =
        staying-every cli.old_node (λ k. str_eq k cli.new_node ≡ false) (rs_nodes raw.nodes)
          (rs-All (λ k. str_eq k cli.new_node ≡ false) raw.nodes b.fresh)

    old-apart : str_eq cli.old_node cli.new_node ≡ false
    old-apart =
        has-All (λ k. str_eq k cli.new_node ≡ false) cli.old_node raw.nodes old_listed b.fresh

    threads-IsOwn : All IsOwn threads
    threads-IsOwn = (
      (create_remote-About cli.new_node (answers cli.new_node) auth).at,
      rest-IsOwn answers (movers r_check stay) cli.old_node,
    )

    threads-DistinctHosts : DistinctHosts threads
    threads-DistinctHosts = (
      rest-apart answers cli.new_node (movers r_check stay) cli.old_node
          (movers-All (λ k. str_eq k cli.new_node ≡ false) stay-apart) old-apart,
      elim (Bool-cases r_check) [
        | inl e ↦ rw e (
            rest-DistinctHosts answers stay cli.old_node
              (staying-NoRepeat cli.old_node (rs_nodes raw.nodes)
                (rs-Distinct raw.nodes f.distinct))
              (staying-not_old cli.old_node (rs_nodes raw.nodes)))
        | inr e ↦ rw e (tt, tt)
      ],
    )

    -- Any status of the host makes a line that the reader accepts.
    abbrev MayNote : Text → Type 0
    MayNote h =
        (st : MetaStatus)
        → IsEntry (note_status h st) × Concerns cli.new_node raw.nodes (note_status h st)

    concerns : (h : Text) → IsHost h → (has h raw.nodes ≡ true) ⊎ (h ≡ cli.new_node) → MayNote h
    concerns h i c st = (record { host = i; status = status_name-IsStatusText st }, c)

    every-known :
        (ns : List NodeInfo)
        → All (λ n. IsHost n.addr) ns
        → All (λ n. has n.addr raw.nodes ≡ true) ns
        → All (λ n. MayNote n.addr) ns
    every-known [] i k = tt
    every-known (n ∷ ns) i k = (concerns n.addr i.0 (inl k.0), every-known ns i.1 k.1)

    -- The reader accepts every line, and each is about a node of the file or the new one.
    pub replace_lines-good :
        {es : List Entry}
        → Merges threads es
        → All IsEntry es × All (Concerns cli.new_node raw.nodes) es
    replace_lines-good {es} m =
        let old_host = has-All IsHost cli.old_node raw.nodes old_listed f.hosts in
        let stay_good =
          staying-every cli.old_node MayNote (rs_nodes raw.nodes)
            (rs-All MayNote raw.nodes (every-known raw.nodes f.hosts (known raw.nodes))) in
        let w =
          Merges-All (λ e. IsEntry e × Concerns cli.new_node raw.nodes e) m
            (
              (create_remote-Writes {P = λ e. IsEntry e × Concerns cli.new_node raw.nodes e} auth
                  cli.new_node (answers cli.new_node)
                  (concerns cli.new_node b.new_host (inr refl))).at,
              rest-writes answers (λ e. IsEntry e × Concerns cli.new_node raw.nodes e)
                  (movers r_check stay) cli.old_node (movers-All MayNote stay_good)
                  (concerns cli.old_node old_host (inl old_listed)),
            ) in
        (
          All-left IsEntry (Concerns cli.new_node raw.nodes) es w,
          All-right IsEntry (Concerns cli.new_node raw.nodes) es w,
        )

    settled : {es : List Entry} → Merges threads es → All (Settles es) threads
    settled m = Merges-Settles m threads-IsOwn threads-DistinctHosts

    module _ {es : List Entry} (m : Merges threads es) where
      -- The status of a host, from the lines of its thread.
      ends :
          (h : Text) (name : Text)
          → ((old : Option Text) → last_status h es old ≡ some name)
          → known_as (status_of h (journal es raw.nodes)) ≡ known_as (some name)
      ends h name e =
          ap known_as
            (status_of-journal h es raw.nodes (replace_lines-good m).0 ∙ e (status_of h raw.nodes))

      moved_hosts :
          (hs : List Text)
          → All (λ h. IsGood (answers h)) hs
          → All (λ h. Settles es (portal_step answers h)) hs
          → All (λ h. known_as (status_of h (journal es raw.nodes)) ≡ some Status.rp_success) hs
      moved_hosts [] g s = tt
      moved_hosts (h ∷ hs) g s = (
        ends h (status_name Status.rp_success)
              (λ old. s.0 old ∙ replace_portal_remote-status h (answers h) old g.0)
            ∙ moved_name,
        moved_hosts hs g.1 s.1,
      )

      left_hosts :
          (hs : List Text)
          → All (λ h. NotAbout h es) hs
          → All (λ h. known_as (status_of h raw.nodes) ≡ some Status.rp_success) hs
          → All (λ h. known_as (status_of h (journal es raw.nodes)) ≡ some Status.rp_success) hs
      left_hosts [] n k = tt
      left_hosts (h ∷ hs) n k = (
        ap known_as (
              status_of-journal h es raw.nodes (replace_lines-good m).0
              ∙ last_status-NotAbout h es (status_of h raw.nodes) n.0)
            ∙ k.0,
        left_hosts hs n.1 k.1,
      )

      -- With no portal to replace, no line is about the hosts that stay.
      quiet : r_check ≡ false → All (λ h. NotAbout h es) stay
      quiet e =
          All-both
            (λ h a o. others-NotAbout h m threads-IsOwn (str_eq_sym h cli.new_node a, rw e (o, tt)))
            stay stay-apart (staying-not_old cli.old_node (rs_nodes raw.nodes))

      -- If every update works and every call returns 0, then the new node is configured, the old one is cleaned
      -- up, and the portals of the others are replaced, or were.
      pub threads-IsReplaced :
          IsGood (answers cli.new_node)
          → IsGood (answers cli.old_node)
          → All (λ h. IsGood (answers h)) stay
          → (r_check ≡ false
              → All (λ h. known_as (status_of h raw.nodes) ≡ some Status.rp_success) stay)
          → IsReplaced auth cli stay (journal es raw.nodes)
      threads-IsReplaced gn go gs idle =
          let s = settled m in
          let (p, q) = rest-split (Settles es) answers (movers r_check stay) cli.old_node s.1 in
          record {
            created =
                ends cli.new_node (done_name auth) (λ old.
                  s.0 old
                  ∙ configured-last auth answers cli.new_node old
                      (gn.first, gn.ret, gn.second, inr gn.third))
                ∙ created_name auth;
            deleted =
                ends cli.old_node (status_name Status.cleanup_success)
                  (λ old. q old ∙ cleaned-last cli.old_node (answers cli.old_node) old go)
                ∙ cleaned_name;
            moved = elim (Bool-cases r_check) [
              | inl e ↦ moved_hosts stay gs (rw e at p)
              | inr e ↦ left_hosts stay (quiet e) (idle e)
            ];
          }
