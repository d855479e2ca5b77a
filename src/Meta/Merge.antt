-- ===== src/Meta/Merge.antt =====
-- Several threads write lines to one journal, each about its own host and one line at a time, since
-- `GB_METAUPDATE_OR_GOTO` (utils/utils.h) holds a lock. The journal is a merge of what they write.
use gluster_block.Prelude.{
  ◌≡◌, ◌∙◌, refl, false, Option, some, List, [], ◌∷◌, arith, if◌then◌else◌, All,
}
use gluster_block.Text.{Text, str_eq}
use gluster_block.Text.Laws.{str_eq_iff}
use gluster_block.Meta.Journal.{Entry, last_status}

-- The third list is an interleaving of the first two.
pub data Merge : List Entry → List Entry → List Entry → Type 0 where
  done : Merge [] [] []
  first : {xs ys zs : List Entry} (e : Entry) → Merge xs ys zs → Merge (e ∷ xs) ys (e ∷ zs)
  second : {xs ys zs : List Entry} (e : Entry) → Merge xs ys zs → Merge xs (e ∷ ys) (e ∷ zs)

pub record Thread : Type 0 where
  pub host : Text
  pub writes : List Entry

-- The list is an interleaving of what all the threads write.
pub data Merges : List Thread → List Entry → Type 0 where
  nobody : Merges [] []
  joined :
      {ts : List Thread} {zs rs : List Entry} (t : Thread)
      → Merge t.writes zs rs
      → Merges ts zs
      → Merges (t ∷ ts) rs

abbrev pub NotAbout : Text → List Entry → Type 0
NotAbout h es = All (λ e. str_eq e.host h ≡ false) es

-- Every line of the thread is about its host.
abbrev pub IsOwn : Thread → Type 0
IsOwn t = All (λ e. e.host ≡ t.host) t.writes

-- No two threads work on the same host.
abbrev pub DistinctHosts : List Thread → Type 0
DistinctHosts [] = Unit
DistinctHosts (t ∷ ts) = All (λ u. str_eq u.host t.host ≡ false) ts × DistinctHosts ts

first-Merge :
    (h : Text) {xs ys zs : List Entry} (old : Option Text)
    → Merge xs ys zs
    → NotAbout h ys
    → last_status h zs old ≡ last_status h xs old
unfolding last_status
first-Merge h old done n = refl
first-Merge h old (first e m) n = first-Merge h (if str_eq e.host h then some e.status else old) m n
first-Merge h old (second e m) n = rw n.0 (first-Merge h old m n.1)

second-Merge :
    (h : Text) {xs ys zs : List Entry} (old : Option Text)
    → Merge xs ys zs
    → NotAbout h xs
    → last_status h zs old ≡ last_status h ys old
unfolding last_status
second-Merge h old done n = refl
second-Merge h old (first e m) n = rw n.0 (second-Merge h old m n.1)
second-Merge h old (second e m) n =
    second-Merge h (if str_eq e.host h then some e.status else old) m n

NotAbout-Merge :
    (h : Text) {xs ys zs : List Entry}
    → Merge xs ys zs
    → NotAbout h xs
    → NotAbout h ys
    → NotAbout h zs
NotAbout-Merge h done n k = tt
NotAbout-Merge h (first e m) n k = (n.0, NotAbout-Merge h m n.1 k)
NotAbout-Merge h (second e m) n k = (k.0, NotAbout-Merge h m n k.1)

own-NotAbout :
    (h k : Text) (es : List Entry) → All (λ e. e.host ≡ k) es → str_eq k h ≡ false → NotAbout h es
own-NotAbout h k [] own ne = tt
own-NotAbout h k (e ∷ es) own ne = (rw own.0 ne, own-NotAbout h k es own.1 ne)

pub others-NotAbout :
    (h : Text) {ts : List Thread} {zs : List Entry}
    → Merges ts zs
    → All IsOwn ts
    → All (λ u. str_eq u.host h ≡ false) ts
    → NotAbout h zs
others-NotAbout h nobody own ne = tt
others-NotAbout h (joined t m ms) own ne =
    NotAbout-Merge h m (own-NotAbout h t.host t.writes own.0 ne.0) (others-NotAbout h ms own.1 ne.1)

-- The thread's host ends as the thread's own lines say, whatever its status was before.
abbrev pub Settles : List Entry → Thread → Type 0
Settles zs t = (old : Option Text) → last_status t.host zs old ≡ last_status t.host t.writes old

pub str_eq_sym : (a b : Text) → str_eq a b ≡ false → str_eq b a ≡ false
str_eq_sym a b h = ground (arith, str_eq_iff a b, str_eq_iff b a)

step-Settles :
    (t : Thread) (ts : List Thread) {zs rs : List Entry}
    → Merge t.writes zs rs
    → IsOwn t
    → All (λ u. str_eq u.host t.host ≡ false) ts
    → All (Settles zs) ts
    → All (Settles rs) ts
step-Settles t [] m own ne s = tt
step-Settles t (u ∷ us) m own ne s = (
  λ old.
      second-Merge u.host old m
        (own-NotAbout u.host t.host t.writes own (str_eq_sym u.host t.host ne.0))
      ∙ s.0 old,
  step-Settles t us m own ne.1 s.1,
)

-- However the lines of the threads interleave, each host ends with the status of the last line of
-- its own thread, or with its old status if the thread writes none, provided that every line of a
-- thread is about its host and that no two threads have the same host.
pub Merges-Settles :
    {ts : List Thread} {zs : List Entry}
    → Merges ts zs
    → All IsOwn ts
    → DistinctHosts ts
    → All (Settles zs) ts
Merges-Settles nobody own d = tt
Merges-Settles (joined {ts} t m ms) own d = (
  λ old. first-Merge t.host old m (others-NotAbout t.host ms own.1 d.0),
  step-Settles t ts m own.0 d.0 (Merges-Settles ms own.1 d.1),
)

Merge-All :
    (P : Entry → Type 0) {xs ys zs : List Entry} → Merge xs ys zs → All P xs → All P ys → All P zs
Merge-All P done a b = tt
Merge-All P (first e m) a b = (a.0, Merge-All P m a.1 b)
Merge-All P (second e m) a b = (b.0, Merge-All P m a b.1)

-- A property of every line of every thread holds of the lines of the journal.
pub Merges-All :
    (P : Entry → Type 0) {ts : List Thread} {zs : List Entry}
    → Merges ts zs
    → All (λ t. All P t.writes) ts
    → All P zs
Merges-All P nobody h = tt
Merges-All P (joined t m ms) h = Merge-All P m h.0 (Merges-All P ms h.1)

-- A thread that writes nothing changes nothing.
pub idle : (zs : List Entry) → Merge [] zs zs
idle [] = done
idle (e ∷ zs) = second e (idle zs)

-- A way for threads to take turns, whatever they write.
abbrev pub IsSchedule : (List Thread → List Entry) → Type 0
IsSchedule order = (ts : List Thread) → Merges ts (order ts)
