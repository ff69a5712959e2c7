-- ===== src/Agent/Measures/Sound.antt =====
-- What the helper reports of the file systems.
use ha_pi_manager_integratio.Prelude.{
  ℕ, ◌*◌, ◌-◌, String, ◌≡◌, refl, ap, ◌∙◌, sym, Bool, true, false, ◌&&◌, ◌||◌, not, Option, none,
  some, List, [], ◌∷◌, map, all, arith, eq_iff, Option-cases, splitlines, inl, inr, leb,
  if◌then◌else◌,
}
use mathlib.Core.Path.{subst}
use ha_pi_manager_integratio.Agent.Services.{contains}
use ha_pi_manager_integratio.Agent.Distinct.{distinct}
use ha_pi_manager_integratio.Agent.Measures.Filesystems.{
  Arithmetic, MountLine, Filesystem, Stats, Filter, is_filtered, is_pseudo, measured, mount_line,
  filesystem_of, entry_of, collect_filesystems, filesystems,
}

-- A real file system that the filter lets through, with no more used than there is
abbrev pub is_sound : Filter → Filesystem → Bool
is_sound filter entry =
    not (is_pseudo entry.fstype)
    && not (is_filtered filter entry.mount)
    && leb entry.used_bytes entry.total_bytes

used-leb : (total available : ℕ) → leb (total - available) total ≡ true
used-leb total available = ground arith

both_true : (a b : Bool) → a ≡ true → b ≡ true → (a && b) ≡ true
both_true a b p q = ground arith

none_holds : (a b c : Bool) → ((a || b) || c) ≡ false → (a ≡ false) × (b ≡ false) × (c ≡ false)
none_holds a b c h = ground arith

abbrev or_else : Filesystem → Option Filesystem → Filesystem
or_else entry none = entry
or_else entry (some other) = other

module _ (arithmetic : Arithmetic) (filter : Filter) where
  filesystem_of-is_sound :
      (line : MountLine) (stats : Stats)
      → is_pseudo line.fstype ≡ false
      → is_filtered filter line.mount ≡ false
      → is_sound filter (filesystem_of arithmetic line stats) ≡ true
  unfolding filesystem_of
  filesystem_of-is_sound line stats p q =
      ground
        (arith, p, q, used-leb (stats.f_blocks * stats.f_frsize) (stats.f_bavail * stats.f_frsize))

  mount-filesystem_of :
      (line : MountLine) (stats : Stats) → (filesystem_of arithmetic line stats).mount ≡ line.mount
  unfolding filesystem_of
  mount-filesystem_of line stats = refl

  guarded-is_sound :
      (skipped : Bool) (found : Option Stats) (line : MountLine) (entry : Filesystem)
      → (skipped ≡ false
          → (is_pseudo line.fstype ≡ false) × (is_filtered filter line.mount ≡ false))
      → (if skipped then none else elim found as (λ _. Option Filesystem) [
        | none ↦ none
        | some stats ↦ some (filesystem_of arithmetic line stats)
      ])
        ≡ some entry
      → (skipped ≡ false) × (is_sound filter entry ≡ true) × (entry.mount ≡ line.mount)
  guarded-is_sound true found line entry k e = absurd (cc)
  guarded-is_sound false none line entry k e = absurd (cc)
  guarded-is_sound false (some stats) line entry k e =
      let p = ap (or_else (filesystem_of arithmetic line stats)) e in
      let (real, passed) = k refl in
      (
        refl,
        ap (is_sound filter) (sym p) ∙ filesystem_of-is_sound line stats real passed,
        ap (λ (f : Filesystem). f.mount) (sym p) ∙ mount-filesystem_of line stats,
      )

module _ (arithmetic : Arithmetic) (statvfs : String → Option Stats) (filter : Filter) where
  measured-is_sound :
      (seen : List String) (line : MountLine) (entry : Filesystem)
      → measured arithmetic statvfs filter seen line ≡ some entry
      → (is_sound filter entry ≡ true) × (contains entry.mount seen ≡ false)
  unfolding measured
  measured-is_sound seen line entry h =
      let skipped =
        is_pseudo line.fstype || is_filtered filter line.mount || contains line.mount seen in
      let each =
        none_holds (is_pseudo line.fstype) (is_filtered filter line.mount)
          (contains line.mount seen) in
      let (taken, sound, same) =
        guarded-is_sound arithmetic filter skipped (statvfs line.mount) line entry
          (λ e. let (a, b, c) = each e in (a, b)) h in
      let (a, b, fresh) = each taken in (sound, ap (λ name. contains name seen) same ∙ fresh)

  entry_of-is_sound :
      (seen : List String) (text : String) (entry : Filesystem)
      → entry_of arithmetic statvfs filter seen text ≡ some entry
      → (is_sound filter entry ≡ true) × (contains entry.mount seen ≡ false)
  unfolding entry_of
  entry_of-is_sound seen text entry h = elim (Option-cases (mount_line arithmetic text)) [
    | inl n ↦ absurd (ground (arith, n))
    | inr (line, l) ↦ measured-is_sound seen line entry (ground (arith, l))
  ]

  -- None of the mounts is on the list.
  abbrev apart : List String → List Filesystem → Bool
  apart seen entries = all (λ (e : Filesystem). not (contains e.mount seen)) entries

  apart-tail :
      (name : String) (seen : List String) (entries : List Filesystem)
      → apart (name ∷ seen) entries ≡ true
      → (apart seen entries ≡ true)
        × (contains name (map (λ (e : Filesystem). e.mount) entries) ≡ false)
  apart-tail name seen [] h = (refl, refl)
  apart-tail name seen (e ∷ entries) h =
      ground (arith, apart-tail name seen entries, eq_iff name e.mount, eq_iff e.mount name)

  -- What holds of the entries that are found beside those on the list
  record AreSound (seen : List String) (found : List Filesystem) : Type 0 where
    sound : all (is_sound filter) found ≡ true
    unseen : apart seen found ≡ true
    once : distinct (map (λ (e : Filesystem). e.mount) found) ≡ true

  abbrev next_found : List String → List String → Option Filesystem → List Filesystem
  next_found seen texts none = collect_filesystems arithmetic statvfs filter seen texts
  next_found seen texts (some entry) =
      entry ∷ collect_filesystems arithmetic statvfs filter (entry.mount ∷ seen) texts

  found_by :
      (seen : List String) (text : String) (texts : List String)
      → collect_filesystems arithmetic statvfs filter seen (text ∷ texts)
        ≡ next_found seen texts (entry_of arithmetic statvfs filter seen text)
  unfolding collect_filesystems
  found_by seen text texts = refl

  AreSound-cons :
      (seen : List String) (entry : Filesystem) (found : List Filesystem)
      → (is_sound filter entry ≡ true) × (contains entry.mount seen ≡ false)
      → AreSound (entry.mount ∷ seen) found
      → AreSound seen (entry ∷ found)
  AreSound-cons seen entry found (sound, fresh) held =
      let (apart_seen, alone) = apart-tail entry.mount seen found held.unseen in
      record {
        sound = both_true _ _ sound held.sound;
        unseen = both_true _ _ (ap not fresh) apart_seen;
        once = both_true _ _ (ap not alone) held.once;
      }

  collect_filesystems-AreSound :
      (seen texts : List String)
      → AreSound seen (collect_filesystems arithmetic statvfs filter seen texts)
  unfolding collect_filesystems
  collect_filesystems-AreSound seen [] = record { sound = refl; unseen = refl; once = refl }
  collect_filesystems-AreSound seen (text ∷ texts) =
      elim (Option-cases (entry_of arithmetic statvfs filter seen text)) [
        | inl n ↦
            subst (AreSound seen) (sym (found_by seen text texts ∙ ap (next_found seen texts) n))
              (collect_filesystems-AreSound seen texts)
        | inr (entry, p) ↦
            subst (AreSound seen) (sym (found_by seen text texts ∙ ap (next_found seen texts) p)) (
              AreSound-cons seen entry _ (entry_of-is_sound seen text entry p)
                (collect_filesystems-AreSound (entry.mount ∷ seen) texts))
      ]

-- The file systems that the helper reports
pub record FilesystemsAreSound (filter : Filter) (found : List Filesystem) : Type 0 where
  pub all_sound : all (is_sound filter) found ≡ true
  pub mounts_distinct : distinct (map (λ (e : Filesystem). e.mount) found) ≡ true

-- Whatever the text of the mounts, the helper reports no pseudo file system and none that the filter
-- holds back, each mount once, and no more used bytes than there are.
pub filesystems-FilesystemsAreSound :
    (arithmetic : Arithmetic) (statvfs : String → Option Stats) (filter : Filter)
    (mountinfo : String)
    → FilesystemsAreSound filter (filesystems arithmetic statvfs filter mountinfo)
unfolding filesystems
filesystems-FilesystemsAreSound arithmetic statvfs filter mountinfo =
    let held = collect_filesystems-AreSound arithmetic statvfs filter [] (splitlines mountinfo) in
    record { all_sound = held.sound; mounts_distinct = held.once }
