-- ===== src/Tests/Mounts.antt =====
-- The file systems of a sample host.
use ha_pi_manager_integratio.Prelude.{
  pos, false, String, ◌==◌, ◌≡◌, refl, Option, none, some, [], ◌∷◌, map, if◌then◌else◌, splitlines,
  is_line_end, partition, split_words, is_space, comma_parts,
}
use ha_pi_manager_integratio.Json.Floats.{float_zero}
use ha_pi_manager_integratio.Agent.Measures.Filesystems.{
  Arithmetic, Stats, Filter, Filesystem, filesystems, collect_filesystems, entry_of, mount_line,
  unescape_mount, measured, is_pseudo, is_filtered, filesystem_of,
}
use ha_pi_manager_integratio.Models.{FilesystemInfo, HostStatus}
use ha_pi_manager_integratio.Integration.Sensors.Created.{IsOnce, created_mounts-IsOnce}
use ha_pi_manager_integratio.Tests.Document.{sample_status}
use ha_pi_manager_integratio.Agent.Measures.Sound.{
  FilesystemsAreSound, filesystems-FilesystemsAreSound,
}

abbrev sample_arithmetic : Arithmetic
sample_arithmetic = record { chr = λ n. " "; percent = λ used total. float_zero }

abbrev sample_statvfs : String → Option Stats
sample_statvfs mount =
    if mount == "/gone"
    then none
    else some (record { f_blocks = 100; f_bavail = 40; f_frsize = 4096 })

abbrev sample_filter : Filter
sample_filter = record { include = []; exclude = "/boot" ∷ [] }

abbrev sample_mountinfo : String
sample_mountinfo =
    "22 1 8:1 / / rw,noatime - ext4 /dev/root rw\n23 22 0:5 / /proc rw - proc proc rw\n24 22 8:2 / /boot rw - vfat /dev/sda1 rw\n25 22 8:3 / /mnt/my\\040disk ro,noexec - ext4 /dev/sdb1 ro\n26 22 8:1 / / rw - ext4 /dev/root rw\n27 22 8:4 / /gone rw - ext4 /dev/sdc1 rw\n"

reported_mounts :
    map
      (λ (e : Filesystem). e.mount)
      (filesystems sample_arithmetic sample_statvfs sample_filter sample_mountinfo)
    ≡ "/" ∷ "/mnt/my disk" ∷ []
unfolding filesystems splitlines is_line_end collect_filesystems entry_of mount_line partition
    split_words is_space unescape_mount comma_parts measured is_pseudo is_filtered filesystem_of
reported_mounts = refl

filesystems-FilesystemsAreSound_example :
    FilesystemsAreSound sample_filter
      (filesystems sample_arithmetic sample_statvfs sample_filter sample_mountinfo)
filesystems-FilesystemsAreSound_example =
    filesystems-FilesystemsAreSound sample_arithmetic sample_statvfs sample_filter sample_mountinfo

abbrev sample_mount : FilesystemInfo
sample_mount = record {
  mount = "/";
  device = "/dev/root";
  fstype = "ext4";
  total_bytes = pos 409600;
  used_bytes = pos 245760;
  used_percent = float_zero;
  readonly = false;
}

abbrev mounted_status : HostStatus
mounted_status = record sample_status { filesystems = sample_mount ∷ sample_mount ∷ [] }

created_mounts-IsOnce_example : IsOnce [] (mounted_status ∷ sample_status ∷ mounted_status ∷ [])
created_mounts-IsOnce_example =
    created_mounts-IsOnce [] (mounted_status ∷ sample_status ∷ mounted_status ∷ [])
