-- ===== src/Replace/Verdict.antt =====
-- What a replace reports (rpc/block_replace.c).
use mathlib.Core.List.{append_assoc}
use gluster_block.Prelude.{
  ◌≡◌, ◌∙◌, refl, ap, sym, Bool, true, false, not, ◌&&◌, ◌||◌, none, some, List, [], ◌∷◌, ◌++◌,
  arith, ℤ, pos, is_zero, Bool-cases, inl, inr, select,
}
use gluster_block.Text.{Text, codes}
use gluster_block.Remote.{Script}
use gluster_block.Remote.Collect.{Done, behind, behind-joined, joined}
use gluster_block.Replace.{ReplaceCli, RemoteResp, ReplaceResp, portal_exit, collect_portals}
use gluster_block.Replace.Response.{
  Object, str, json, plain, exit_of, is_fine, mimic, result_word, members, lines, format_response,
  create_json, create_text, delete_json, delete_text, portal_json, portal_text,
}

-- What is left of a portal's thread.
abbrev pub portal_done : (Text → Script) → Text → Done
portal_done answers h = record { addr = h; exit = portal_exit answers h }

abbrev pub last_exit : (Text → Script) → List Text → ℤ → ℤ
last_exit answers [] old = old
last_exit answers (h ∷ hs) old = last_exit answers hs (portal_exit answers h)

module _ (answers : Text → Script) where
  abbrev pub portals_done : List Text → List Done
  portals_done [] = []
  portals_done (h ∷ hs) = portal_done answers h ∷ portals_done hs

  -- Each portal is reported once, in order: under `attempt` if its thread has not returned 0, and under
  -- `success` if it has; but the status is that of the last thread alone.
  pub collect_portals_lem :
      (hs : List Text) (r : RemoteResp)
      → collect_portals answers hs r ≡ record {
        status = last_exit answers hs r.status;
        attempt = behind r.attempt (select (λ d. not (is_zero d.exit)) (portals_done hs));
        success = behind r.success (select (λ d. is_zero d.exit) (portals_done hs));
        skipped = r.skipped;
      }
  unfolding collect_portals
  collect_portals_lem [] r = refl
  collect_portals_lem (h ∷ hs) r = elim (Bool-cases (is_zero (portal_exit answers h))) [
    | inl e ↦
        rw (collect_portals, e)
          (collect_portals_lem hs
              (record r { success = joined r.success h; status = portal_exit answers h })
            ∙ ap
                (λ x. record {
                  status = last_exit answers hs (portal_exit answers h);
                  attempt = behind r.attempt (select (λ d. not (is_zero d.exit)) (portals_done hs));
                  success = x;
                  skipped = r.skipped;
                })
                (behind-joined r.success (portal_done answers h)
                  (select (λ d. is_zero d.exit) (portals_done hs))))
    | inr e ↦
        rw (collect_portals, e)
          (collect_portals_lem hs
              (record r { attempt = joined r.attempt h; status = portal_exit answers h })
            ∙ ap
                (λ x. record {
                  status = last_exit answers hs (portal_exit answers h);
                  attempt = x;
                  success = behind r.success (select (λ d. is_zero d.exit) (portals_done hs));
                  skipped = r.skipped;
                })
                (behind-joined r.attempt (portal_done answers h)
                  (select (λ d. not (is_zero d.exit)) (portals_done hs))))
  ]

-- Whether the plain answer says SUCCESS, and whether the JSON answer does.
abbrev pub plain_success : ReplaceResp → Bool
plain_success r =
    is_fine r.cop.status && ((r.force || is_fine r.dop.status) && is_fine r.rop.status)

abbrev pub json_success : ReplaceResp → Bool
json_success r = is_fine r.cop.status && is_fine r.rop.status

abbrev pub verdict : Bool → Text
verdict true = codes "SUCCESS"
verdict false = codes "FAIL"

plain_word : (r : ReplaceResp) → result_word (mimic r.force r.dop) r ≡ verdict (plain_success r)
unfolding result_word mimic
plain_word r = ground arith

json_word : (r : ReplaceResp) → result_word (mimic true r.dop) r ≡ verdict (json_success r)
unfolding result_word mimic
json_word r = ground arith

regroup : {A : Type 0} (a b c d : List A) → a ++ (b ++ (c ++ d)) ≡ (a ++ (b ++ c)) ++ d
regroup a b c d = sym (append_assoc a (b ++ c) d ∙ ap (λ l. a ++ l) (append_assoc b c d))

json_end :
    (r : ReplaceResp)
    → r.status ≡ pos 0
    → (front : Object) × (members r
        ≡ front ++ (codes "RESULT", str (verdict (json_success r))) ∷ [])
unfolding members
json_end r z = (
  create_json r.cop ++ (delete_json r.force r.dop ++ portal_json r.rop),
  (rw (members, z) refl)
      ∙ ap
          (λ w.
            create_json r.cop
            ++ (delete_json r.force r.dop ++ (portal_json r.rop ++ (codes "RESULT", str w) ∷ [])))
          (json_word r)
      ∙ regroup (create_json r.cop) (delete_json r.force r.dop) (portal_json r.rop)
          ((codes "RESULT", str (verdict (json_success r))) ∷ []),
)

plain_end :
    (r : ReplaceResp)
    → r.status ≡ pos 0
    → (front : Text) × (lines r
        ≡ front ++ (codes "RESULT: " ++ (verdict (plain_success r) ++ codes "\n")))
unfolding lines
plain_end r z = (
  create_text r.cop ++ (delete_text r.force r.dop ++ portal_text r.rop),
  (rw (lines, z) refl)
      ∙ ap
          (λ w.
            create_text r.cop
            ++ (delete_text r.force r.dop
                ++ (portal_text r.rop ++ (codes "RESULT: " ++ (w ++ codes "\n")))))
          (plain_word r)
      ∙ regroup (create_text r.cop) (delete_text r.force r.dop) (portal_text r.rop)
          (codes "RESULT: " ++ (verdict (plain_success r) ++ codes "\n")),
)

-- The two answers to a replace that was run, with no message: both exit with the code of the handler,
-- and end in a verdict. Each is SUCCESS only if the create and the portals' status are 0 or skipped. The plain
-- one asks the same of the delete, unless the replace is forced; the one in JSON ignores the delete.
pub format_response_verdicts :
    (cli : ReplaceCli) (err_code : ℤ) (r : ReplaceResp)
    → r.status ≡ pos 0
    → ((front : Object) × (format_response true cli err_code none (some r) ≡ record {
      exit = exit_of err_code;
      out = json (front ++ (codes "RESULT", str (verdict (json_success r))) ∷ []);
    }))
      × ((front : Text) × (format_response false cli err_code none (some r) ≡ record {
        exit = exit_of err_code;
        out = plain (front ++ (codes "RESULT: " ++ (verdict (plain_success r) ++ codes "\n\n")));
      }))
unfolding format_response
format_response_verdicts cli err_code r z =
    let (a, e) = json_end r z in
    let (b, k) = plain_end r z in
    let name = codes "NAME: " ++ (cli.block_name ++ codes "\n") in
    (
      ((codes "NAME", str cli.block_name) ∷ a, rw (format_response, e) refl),
      (name ++ b, rw (format_response, k) (simp append_assoc)),
    )
