-- ===== src/Tests/Devices.antt =====
-- The clock with a timer as the only device, and a file of 200 bytes in two sectors.
use my_nachos.Base.{
  ℕ, ◌/◌, ◌<◌, ◌≡◌, refl, true, false, some, [], ◌∷◌, if◌then◌else◌, ltb, arith, inl, inr,
  Bool-cases,
}
use my_nachos.Base.Checked.{assert}
use my_nachos.Machine.Interrupt.{
  Interrupt, int_off, timer_int, disk_int, system_mode, Devices, set_interrupt, check_if_due,
  one_tick, idle,
}
use my_nachos.Machine.Interrupt.Requests.{now}
use my_nachos.Machine.Interrupt.Loop.{checked, check_if_due-checked}
use my_nachos.Machine.Interrupt.Clock.{IsSound, Obeys}
use my_nachos.Machine.Interrupt.Tick.{one_tick-IsSound, Idles, idle-Idles}
use my_nachos.Machine.Interrupt.Rearm.{set_interrupt-InFuture}
use my_nachos.Filesys.Header.{FileHeader, byte_to_sector, get_sector, file_length}
use my_nachos.Filesys.Volume.{OpenFile}
use my_nachos.Filesys.OpenFile.{Buffer, DiskData, write_at, read, write, seek}
use my_nachos.Filesys.OpenFile.Sectors.{IsMapped}
use my_nachos.Filesys.OpenFile.Writing.{Writes, write_at-Writes}
use my_nachos.Filesys.OpenFile.Round.{read-write}

abbrev timer_devices : Devices (Unit {0})
timer_devices = record {
  call_back = λ c m s. (s, set_interrupt (record { randomize = false; disable = false }) c 0);
  delayed_load = λ s. s;
  yield = λ i s. (i, s);
}

timer_devices-Obeys : Obeys timer_devices 200
timer_devices-Obeys = record {
  in_future = λ c m s. set_interrupt-InFuture (record { randomize = false; disable = false }) c 0;
  yields = λ i s sound. sound;
  forwards = λ i s. omega arith;
}

-- A timer interrupt due at 100 and one of the disk at 600, at time 95.
abbrev waiting : Interrupt
waiting = record {
  level = int_off;
  pending =
      record { call_on_interrupt = 1; when = 100; type = timer_int }
      ∷ record { call_on_interrupt = 2; when = 600; type = disk_int }
      ∷ [];
  in_handler = false;
  yield_on_return = false;
  status = system_mode;
  stats = record { total_ticks = 95; idle_ticks = 20; system_ticks = 70; user_ticks = 5 };
}

waiting-IsSound : IsSound waiting
waiting-IsSound = record {
  in_order = ((omega arith, tt), (tt, tt));
  accounts = refl;
  no_handler = refl;
}

check_if_due-checked_example :
    check_if_due timer_devices 2 true waiting tt ≡ checked timer_devices true waiting tt
check_if_due-checked_example =
    check_if_due-checked timer_devices 2 true waiting tt waiting-IsSound.in_order (omega arith)

one_tick-IsSound_example :
    (j : Interrupt) × ((s : Unit {0}) × ((one_tick timer_devices 2 waiting tt ≡ some (j, s))
        × (IsSound j × (now waiting < now j))))
one_tick-IsSound_example =
    one_tick-IsSound timer_devices 200 timer_devices-Obeys 2 waiting tt waiting-IsSound
      (omega arith) (omega arith)

idle-Idles_example :
    Idles timer_devices 200 timer_devices-Obeys waiting.pending waiting
      (idle timer_devices 2 waiting tt)
idle-Idles_example =
    idle-Idles timer_devices 200 timer_devices-Obeys 2 waiting tt waiting-IsSound refl (omega arith)
      (omega arith)

abbrev two_sectors : FileHeader
two_sectors = record { num_bytes = 200; num_sectors = 2; data_sectors = 5 ∷ 9 ∷ [] }

located : (p : ℕ) → p < 200 → byte_to_sector two_sectors p ≡ some (if ltb p 128 then 5 else 9)
unfolding byte_to_sector get_sector assert
located p lt = elim (Bool-cases (ltb p 128)) [
  | inl e ↦ let q : p / 128 ≡ 0 = ground arith in rw (e, q) refl
  | inr e ↦ let q : p / 128 ≡ 1 = ground arith in rw (e, q) refl
]

two_sectors-IsMapped : IsMapped two_sectors
two_sectors-IsMapped p q hp hq = (
  (if ltb p 128 then 5 else 9),
  (if ltb q 128 then 5 else 9),
  located p hp,
  located q hq,
  ((λ e. ground arith), λ e. ground arith),
)

abbrev handle_of : OpenFile
handle_of = record { hdr = two_sectors; seek_position = 120 }

abbrev zeros : Buffer
zeros = λ k. 0

abbrev counting : Buffer
counting = λ k. k

abbrev blank : DiskData
blank = λ s k. 0

read-write_example :
    (disk : DiskData) × ((f : OpenFile) × ((into : Buffer) × ((write zeros blank 100 counting
              handle_of
            ≡ some (80, (disk, f)))
          × ((read zeros disk 100 zeros (seek 120 f) ≡ some (80, (into, f)))
              × ((f.seek_position ≡ 200) × ((j : ℕ) → j < 80 → into j ≡ j))))))
unfolding file_length
read-write_example =
    read-write handle_of zeros counting zeros blank 100 two_sectors-IsMapped (omega arith)

write_at-Writes_example :
    (disk : DiskData) × (write_at two_sectors zeros counting 20 120 blank ≡ some (20, disk))
    × Writes two_sectors counting 20 120 blank disk
unfolding file_length
write_at-Writes_example =
    write_at-Writes two_sectors two_sectors-IsMapped zeros counting blank 20 120 (omega arith)
