-- ===== src/Agent/Measures/Filesystems.antt =====
-- The mounted file systems and the network interfaces of a host.
use ha_pi_manager_integratio.Prelude.{
  ℕ, ◌+◌, ◌-◌, ◌*◌, String, ε, ◌▹◌, Char, code, Bool, false, ◌&&◌, ◌||◌, not, Option, none, some,
  List, [], ◌∷◌, is_char, between, partition, splitlines, split_words, comma_parts, if◌then◌else◌,
}
use ha_pi_manager_integratio.Agent.Services.{contains}
use ha_pi_manager_integratio.Json.Floats.{Float}

-- `chr`, and `round(used * 100 / total, 2)`, for a total above 0 and 0.0 otherwise
pub record Arithmetic : Type 0 where
  pub chr : ℕ → Char
  pub percent : ℕ → ℕ → Float

-- `PSEUDO_FILESYSTEMS`
abbrev pub pseudo_filesystems : List String
pseudo_filesystems =
    "autofs" ∷ "binfmt_misc" ∷ "cgroup" ∷ "cgroup2" ∷ "configfs" ∷ "debugfs" ∷ "devpts" ∷ "devtmpfs"
    ∷ "efivarfs" ∷ "fusectl" ∷ "hugetlbfs" ∷ "mqueue" ∷ "overlay" ∷ "proc" ∷ "pstore" ∷ "ramfs"
    ∷ "securityfs" ∷ "squashfs" ∷ "sysfs" ∷ "tmpfs" ∷ "tracefs" ∷ []

-- `fstype in PSEUDO_FILESYSTEMS`
unfoldable pub is_pseudo : String → Bool
is_pseudo fstype = contains fstype pseudo_filesystems

abbrev is_octal : Char → Bool
is_octal c = between b'0' b'7' (code c)

abbrev octal_value : Char → Char → Char → ℕ
octal_value x y z = (code x - 48) * 64 + (code y - 48) * 8 + (code z - 48)

-- A line of /proc/self/mountinfo
pub record MountLine : Type 0 where
  pub mount : String
  pub device : String
  pub fstype : String
  pub options : List String

pub record Filesystem : Type 0 where
  pub mount : String
  pub device : String
  pub fstype : String
  pub total_bytes : ℕ
  pub used_bytes : ℕ
  pub used_percent : Float
  pub readonly : Bool

-- What `os.statvfs` gives: blocks, available blocks and the size of a block
pub record Stats : Type 0 where
  pub f_blocks : ℕ
  pub f_bavail : ℕ
  pub f_frsize : ℕ

pub record Filter : Type 0 where
  pub include : List String
  pub exclude : List String

abbrev is_missing : List String → String → Bool
is_missing [] name = false
is_missing include name = not (contains name include)

-- `x in exclude or (include and x not in include)`
unfoldable pub is_filtered : Filter → String → Bool
is_filtered filter name = contains name filter.exclude || is_missing filter.include name

module _ (arithmetic : Arithmetic) where
  -- `_unescape_mount`: a backslash and three octal digits stand for a character.
  unfoldable pub unescape_mount : String → String
  unescape_mount ε = ε
  unescape_mount (c ▹ ε) = c ▹ ε
  unescape_mount (c ▹ (x ▹ ε)) = c ▹ (x ▹ ε)
  unescape_mount (c ▹ (x ▹ (y ▹ ε))) = c ▹ (x ▹ (y ▹ ε))
  unescape_mount (c ▹ (x ▹ (y ▹ (z ▹ s)))) =
      let behind = unescape_mount s in
      let rest = unescape_mount (x ▹ (y ▹ (z ▹ s))) in
      if is_char 92 c && is_octal x && is_octal y && is_octal z
      then arithmetic.chr (octal_value x y z) ▹ behind
      else c ▹ rest

  abbrev fields_of : List String → List String → Option MountLine
  fields_of (a ∷ b ∷ c ∷ d ∷ mount ∷ options ∷ more) (fstype ∷ device ∷ rest) = some (record {
    mount = unescape_mount mount;
    device = unescape_mount device;
    fstype = fstype;
    options = comma_parts options;
  })
  fields_of _ _ = none

  -- The fields on both sides of ` - `, if there are enough
  unfoldable pub mount_line : String → Option MountLine
  unfolding unescape_mount partition split_words comma_parts
  mount_line line = elim (partition " - " line) [
    | none ↦ none
    | some (before, after) ↦ fields_of (split_words before) (split_words after)
  ]

  unfoldable pub filesystem_of : MountLine → Stats → Filesystem
  filesystem_of line stats =
      let total = stats.f_blocks * stats.f_frsize in
      let used = total - stats.f_bavail * stats.f_frsize in
      record {
        mount = line.mount;
        device = line.device;
        fstype = line.fstype;
        total_bytes = total;
        used_bytes = used;
        used_percent = arithmetic.percent used total;
        readonly = contains "ro" line.options;
      }

  module _ (statvfs : String → Option Stats) (filter : Filter) where
    -- The entry of a line, unless it is passed over; `statvfs` is missing where it fails.
    unfoldable pub measured : List String → MountLine → Option Filesystem
    unfolding filesystem_of is_pseudo is_filtered
    measured seen line =
        if is_pseudo line.fstype || is_filtered filter line.mount || contains line.mount seen
        then none
        else elim (statvfs line.mount) [
          | none ↦ none
          | some stats ↦ some (filesystem_of line stats)
        ]

    unfoldable pub entry_of : List String → String → Option Filesystem
    unfolding mount_line measured
    entry_of seen text = elim (mount_line text) [ none ↦ none | some line ↦ measured seen line ]

    -- The loop over the lines
    unfoldable pub collect_filesystems : List String → List String → List Filesystem
    collect_filesystems seen [] = []
    collect_filesystems seen (text ∷ texts) = elim (entry_of seen text) [
      | none ↦ collect_filesystems seen texts
      | some entry ↦ entry ∷ collect_filesystems (entry.mount ∷ seen) texts
    ]

    -- `_filesystems`, of the text of /proc/self/mountinfo
    unfoldable pub filesystems : String → List Filesystem
    unfolding splitlines
    filesystems mountinfo = collect_filesystems [] (splitlines mountinfo)
