-- ===== src/Lease/Race.antt =====
-- `acquire_pipeline_lease` as its file-system calls, interleaved with those of another process.
use loony_dev.Prelude.{
  inr, inl, Bool-cases, ℕ, zero, suc, ◌+◌, Bool, true, false, List, [], ◌∷◌, Option, none, some,
  if◌then◌else◌, ◌==◌, Text, ℤ, ◌≡◌, refl, sym, ◌∙◌, arith,
}
use loony_dev.Prelude.Dictionary.{Dict, lookup, remove, lookup-insert_self}
use loony_dev.Lease.Staleness.{Scene, parse_lease}
use loony_dev.Lease.Exclusion.{attempts_free, attempts_reclaims, attempts_refused}
use loony_dev.Lease.Acquire.{attempts, reclaimable}

pub record Acquirer : Type 0 where
  pub scene : Scene
  pub stale_after : ℤ
  pub window : Option ℤ
  pub payload : Text

-- The lease file: an inode and its content; `next_inode` is one that nobody has.
pub record Disk : Type 0 where
  pub file : Option (ℕ × Text)
  pub next_inode : ℕ

-- Where an acquirer stands; `left` counts the attempts that follow.
pub data Pc : Type 0 where
  creating reading unlinking : (left : ℕ) → Pc
  writing : (fd : ℕ) → Pc
  finished : Bool → Pc

judge : ℕ → Bool → Pc
judge left false = finished false
judge zero true = finished false
judge (suc left) true = unlinking (suc left)

content_of : Option (ℕ × Text) → Option Text
content_of none = none
content_of (some (inode, content)) = some content

write_to : ℕ → Text → Option (ℕ × Text) → Option (ℕ × Text)
write_to fd payload none = none
write_to fd payload (some (inode, content)) =
    if inode == fd then some (inode, payload) else some (inode, content)

-- `os.open(path, O_CREAT | O_EXCL)`, `_parse_lease` with the staleness test, `path.unlink()`,
-- `os.write`.
unfoldable pub step : Acquirer → Pc → Disk → Disk × Pc
unfolding judge content_of write_to
step a (creating zero) d = (d, finished false)
step a (creating (suc left)) d = elim d.file [
  | none ↦ (
    record d { file = some (d.next_inode, []); next_inode = d.next_inode + 1 },
    writing d.next_inode,
  )
  | some _ ↦ (d, reading left)
]
step a (reading left) d = (
  d,
  judge left
      (reclaimable a.scene a.stale_after a.window (parse_lease a.scene.py (content_of d.file))),
)
step a (unlinking left) d = (record d { file = none }, creating left)
step a (writing fd) d = (record d { file = write_to fd a.payload d.file }, finished true)
step a (finished won) d = (d, finished won)

-- The schedule says whose call is next: `true` for the first process.
unfoldable pub run : Acquirer → Acquirer → List Bool → Pc → Pc → Disk → Disk × Pc × Pc
run a b [] p q d = (d, p, q)
run a b (true ∷ turns) p q d = let (d', p') = step a p d in run a b turns p' q d'
run a b (false ∷ turns) p q d = let (d', q') = step b q d in run a b turns p q' d'

abbrev pub two_attempts : Pc
two_attempts = creating 2

abbrev pub torn_read : List Bool
torn_read = true ∷ false ∷ false ∷ false ∷ false ∷ false ∷ true ∷ []

abbrev pub content : Option (ℕ × Text) → Option Text
content none = none
content (some (inode, text)) = some text

abbrev pub empty_disk : ℕ → Disk
empty_disk n = record { file = none; next_inode = n }

reclaims : Acquirer → Text → Bool
reclaims a text = reclaimable a.scene a.stale_after a.window (parse_lease a.scene.py (some text))

reclaims_torn : (a : Acquirer) → a.scene.py.loads [] ≡ none → reclaims a [] ≡ true
unfolding reclaims reclaimable parse_lease
reclaims_torn a refused = rw (refused, parse_lease)

-- Two acquirers can both report success on a pipeline that nobody held. The second one reads the
-- file that the first has created and not yet written, an empty text that `json.loads` refuses,
-- takes the lease for a malformed one, unlinks it and creates its own. The disk then holds the
-- second one's lease.
pub run-torn_read :
    (a b : Acquirer) (n : ℕ)
    → b.scene.py.loads [] ≡ none
    → let (after, p, q) = run a b torn_read two_attempts two_attempts (empty_disk n) in
      (p ≡ finished true) × (q ≡ finished true) × (content after.file ≡ some b.payload)
unfolding run step reclaims
run-torn_read a b n refused = rw (reclaims_torn b refused) (refl, refl, ground arith)

abbrev pub stale_disk : ℕ → Text → Disk
stale_disk n text = record { file = some (n, text); next_inode = n + 1 }

abbrev pub both_reclaim : List Bool
both_reclaim = true ∷ false ∷ true ∷ false ∷ true ∷ true ∷ true ∷ false ∷ false ∷ false ∷ []

-- Two acquirers that both find the old lease of a pipeline reclaimable can both report success:
-- both judge the old lease before either unlinks,
-- and the second one then unlinks the first one's fresh lease.
pub run-both_reclaim :
    (a b : Acquirer) (n : ℕ) (text : Text)
    → reclaimable a.scene a.stale_after a.window (parse_lease a.scene.py (some text)) ≡ true
    → reclaimable b.scene b.stale_after b.window (parse_lease b.scene.py (some text)) ≡ true
    → let (after, p, q) = run a b both_reclaim two_attempts two_attempts (stale_disk n text) in
      (p ≡ finished true) × (q ≡ finished true) × (content after.file ≡ some b.payload)
unfolding run step
run-both_reclaim a b n text ha hb = rw (ha, hb) (refl, refl, ground arith)

-- One process alone, for as many calls as the number says.
unfoldable pub solo : Acquirer → ℕ → Pc → Disk → Disk × Pc
solo a zero p d = (d, p)
solo a (suc k) p d = let (d', p') = step a p d in solo a k p' d'

solo_free :
    (a : Acquirer) (n : ℕ)
    → let (after, p) = solo a 6 two_attempts (empty_disk n) in
      (p ≡ finished true) × (content after.file ≡ some a.payload)
unfolding solo step
solo_free a n = (refl, ground arith)

solo_refused :
    (a : Acquirer) (n inode : ℕ) (text : Text)
    → reclaimable a.scene a.stale_after a.window (parse_lease a.scene.py (some text)) ≡ false
    → let (after, p) =
        solo a 6 two_attempts (record { file = some (inode, text); next_inode = n }) in
      (p ≡ finished false) × (content after.file ≡ some text)
unfolding solo step
solo_refused a n inode text h = rw h (refl, refl)

solo_reclaims :
    (a : Acquirer) (n inode : ℕ) (text : Text)
    → reclaimable a.scene a.stale_after a.window (parse_lease a.scene.py (some text)) ≡ true
    → let (after, p) =
        solo a 6 two_attempts (record { file = some (inode, text); next_inode = n }) in
      (p ≡ finished true) × (content after.file ≡ some a.payload)
unfolding solo step
solo_reclaims a n inode text h = rw h (refl, ground arith)

-- With no other process between its calls, six calls at most bring an acquirer to the end, with
-- the answer of the atomic model, and leave on disk the content that the atomic model leaves.
pub solo-attempts :
    (a : Acquirer) (slug : Text) (dir : Dict Text) (file : Option (ℕ × Text)) (n : ℕ)
    → content file ≡ lookup slug dir
    → let (after, p) = solo a 6 two_attempts (record { file = file; next_inode = n }) in
      let (dir', won) = attempts a.scene a.stale_after a.window slug a.payload 2 dir in
      (p ≡ finished won) × (content after.file ≡ lookup slug dir')
solo-attempts a slug dir none n h =
    let (stops, holds) = solo_free a n in
    rw (attempts_free a.scene a.stale_after a.window slug a.payload dir (sym h))
      (stops, holds ∙ sym (lookup-insert_self slug a.payload dir))
solo-attempts a slug dir (some (inode, text)) n h =
    elim (Bool-cases
      (reclaimable a.scene a.stale_after a.window (parse_lease a.scene.py (some text)))) [
        | inl r ↦
            let (stops, holds) = solo_reclaims a n inode text r in
            rw (attempts_reclaims a.scene a.stale_after a.window slug a.payload dir text (sym h) r)
              (stops, holds ∙ sym (lookup-insert_self slug a.payload (remove slug dir)))
        | inr r ↦
            let (stops, holds) = solo_refused a n inode text r in
            rw (attempts_refused a.scene a.stale_after a.window slug a.payload 2 dir text (sym h) r)
              (stops, holds ∙ h)
      ]
