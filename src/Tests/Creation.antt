-- ===== src/Tests/Creation.antt =====
-- A create with one host that answers, and the audit of the sample file (rpc/block_create.c).
use gluster_block.Prelude.{refl, inr, map, List, ◌≡◌, ◌≢◌, ◌⊎◌, true, [], ◌∷◌, arith, pos, All}
use gluster_block.Text.{Text, codes, first_token, after_char, str_eq}
use gluster_block.Text.Decimal.{scan_zu}
use gluster_block.Enums.Key.{key_parse}
use gluster_block.Enums.Status
use gluster_block.Enums.Status.{MetaStatus, status_name}
use gluster_block.Meta.Lines.{stuff_lines}
use gluster_block.Meta.Journal.{Entry, entry_line}
use gluster_block.Meta.Merge.{Thread, Merges, done, first, second, nobody, joined}
use gluster_block.Meta.Read.{render}
use gluster_block.Meta.File.{IsFile}
use gluster_block.Remote.{create_remote}
use gluster_block.Delete.{Disk, append_text}
use gluster_block.Create.Count.{NoRepeat}
use gluster_block.Create.Success.{create_thread, audit-configured}
use gluster_block.Meta.{MetaInfo, blank_info, stuff_meta_info, rs_nodes, ok}
use gluster_block.Delete.Gone.{IsGone}
use gluster_block.Delete.Safety.{disk_of, disk_kept}
use gluster_block.Create.{success_count, audit_request, Audited}
use gluster_block.Create.Audit.{IsConfigured, audit_request_lem}
use gluster_block.Tests.Sample.{h2, h1-IsHost, h2-IsHost, h1, lines, raw, lines-IsFile}
use gluster_block.Tests.Hosts.{deleted}
use gluster_block.Tests.Deletion.{answers, no_resp, one_thread, few_lines}

-- Two paths were asked for, and one host is configured.
audit_request_lem_example :
    (r : Audited) × (audit_request answers 4 [] 2 (disk_of lines) no_resp ≡ ok r)
    × (r.ret ≡ pos 0)
    × ((2 ≡ success_count (rs_nodes raw.nodes)) × (r.disk ≡ disk_of lines)
        ⊎ (2 ≢ success_count (rs_nodes raw.nodes))
          × (All (IsGone (λ h. deleted)) raw.nodes ⊎ (r.disk ≡ disk_kept answers lines raw)))
audit_request_lem_example =
    audit_request_lem answers 4 [] 2 no_resp lines-IsFile one_thread (omega arith) (omega arith)
      few_lines

-- A new file for two paths, without hosts.
abbrev new_lines : List Text
new_lines = codes "HA: 2" ∷ []

abbrev new_raw : MetaInfo
new_raw = record blank_info { mpath = 2 }

new_parsed : stuff_lines new_lines blank_info ≡ ok new_raw
unfolding stuff_lines stuff_meta_info first_token after_char key_parse scan_zu
new_parsed = refl

new_lines-IsFile : IsFile new_lines new_raw
new_lines-IsFile = record {
  lines = (record { nonempty = λ p. cc; text = omega arith; short = omega arith }, tt);
  parsed = new_parsed;
  distinct = tt;
  hosts = tt;
}

abbrev note : Text → MetaStatus → Entry
note h st = record { host = h; status = status_name st }

abbrev thread_of_host : Text → Thread
thread_of_host h = record {
  host = h;
  writes =
      note h Status.config_inprogress
      ∷ note h Status.config_success
      ∷ note h Status.auth_enforced
      ∷ [];
}

-- The second host begins before the first is done.
abbrev written : List Entry
written =
    note h1 Status.config_inprogress
    ∷ note h2 Status.config_inprogress
    ∷ note h1 Status.config_success
    ∷ note h1 Status.auth_enforced
    ∷ note h2 Status.config_success
    ∷ note h2 Status.auth_enforced
    ∷ []

create_threads :
    map (create_thread true (λ h. deleted)) (h1 ∷ h2 ∷ [])
    ≡ thread_of_host h1 ∷ thread_of_host h2 ∷ []
unfolding create_remote
create_threads = refl

written-Merges : Merges (map (create_thread true (λ h. deleted)) (h1 ∷ h2 ∷ [])) written
written-Merges = rw create_threads (
    joined (thread_of_host h1) (first _ (second _ (first _ (first _ (second _ (second _ done))))))
      (joined (thread_of_host h2) (first _ (first _ (first _ done))) nobody))

two_hosts : NoRepeat (h1 ∷ h2 ∷ [])
unfolding str_eq
two_hosts = ((refl, tt), (tt, tt))

abbrev disk_written : Disk
disk_written = append_text (render (map entry_line written)) (disk_of new_lines)

both-IsConfigured : All (IsConfigured true (λ h. deleted)) (h1 ∷ h2 ∷ [])
both-IsConfigured = ((refl, refl, refl, inr refl), ((refl, refl, refl, inr refl), tt))

audit-configured_example :
    audit_request answers 8 [] 2 disk_written no_resp
    ≡ ok (record { ret = pos 0; disk = disk_written; resp = no_resp })
audit-configured_example =
    audit-configured true (λ h. deleted) (h1 ∷ h2 ∷ []) written answers 8 [] no_resp
      new_lines-IsFile refl (h1-IsHost, (h2-IsHost, tt)) two_hosts both-IsConfigured written-Merges
      (omega arith)
