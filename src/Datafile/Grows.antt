-- ===== src/Datafile/Grows.antt =====
-- src/datafile.rs: no operation of the active file, failing or not, changes bytes that are in a file.
use yabiir.Base.{ℕ, Bool, true, false, Bytes, length, ltb, ◌==◌, ◌-◌, if◌then◌else◌}
use yabiir.Error.{Result}
use yabiir.Io.{pure, ◌>>◌}
use yabiir.Io.Disk.{World, syscall, create_data, data_len}
use yabiir.Io.Grows.{
  Extends, Extends-refl, Grows, Grows-bind, syscall-Extends, write_data-Extends,
  create_data-Extends, data_len-Extends,
}
use yabiir.Format.Entry.{EncodedEntry}
use yabiir.Datafile.{
  Writing, on_world, push, flush, flush_buffer, write_cold, flush_if, write_or_push, write_all,
  advance, write_unflushed, append, append_buffered, sync, sync_handle, create, buffer_capacity,
}

abbrev pub world : Writing → World
world s = s.world

Grows-pure : {A : Type 0} (a : A) → Grows world (pure a)
Grows-pure a = record { at = λ s. Extends-refl s.world }

Grows-syscall : Grows world (on_world syscall)
Grows-syscall = record { at = λ s. syscall-Extends s.world }

if-Extends :
    (b : Bool) (w : World) (x y : Result (Unit {0}) × Writing)
    → Extends w x.1.world
    → Extends w y.1.world
    → Extends w (if b then x else y).1.world
if-Extends true w x y p q = p
if-Extends false w x y p q = q

pub Grows-flush : Grows world flush
unfolding flush flush_buffer
Grows-flush = record {
  at = λ s.
      if-Extends (length s.file.buffer == 0) s.world (pure tt s) (flush_buffer s)
        (Extends-refl s.world) (write_data-Extends s.file.file_id s.file.buffer s.world);
}

Grows-flush_if : (b : Bool) → Grows world (flush_if b)
unfolding flush_if
Grows-flush_if true = Grows-flush
Grows-flush_if false = Grows-pure tt

Grows-push : (bytes : Bytes) → Grows world (push bytes)
Grows-push bytes = record { at = λ s. Extends-refl s.world }

Grows-write_or_push : (b : Bool) (bytes : Bytes) → Grows world (write_or_push b bytes)
unfolding write_or_push
Grows-write_or_push true bytes = record {
  at = λ s. write_data-Extends s.file.file_id bytes s.world;
}
Grows-write_or_push false bytes = Grows-push bytes

Grows-write_cold : (b : Bool) (bytes : Bytes) → Grows world (write_cold b bytes)
unfolding write_cold
Grows-write_cold b bytes =
    Grows-bind world (flush_if b) _ (Grows-flush_if b) (λ _. Grows-write_or_push _ bytes)

Grows-write_all : (bytes : Bytes) → Grows world (write_all bytes)
unfolding write_all
Grows-write_all bytes = record {
  at = λ s.
      if-Extends (ltb (length bytes) (buffer_capacity - length s.file.buffer)) s.world
        (push bytes s) (write_cold _ bytes s) (Extends-refl s.world)
        ((Grows-write_cold _ bytes).at s);
}

Grows-advance : (encoded : EncodedEntry) → Grows world (advance encoded)
unfolding advance
Grows-advance encoded = record { at = λ s. Extends-refl s.world }

Grows-write_unflushed : (encoded : EncodedEntry) → Grows world (write_unflushed encoded)
unfolding write_unflushed
Grows-write_unflushed encoded =
    Grows-bind world (write_all encoded.bytes) _ (Grows-write_all encoded.bytes)
      (λ _. Grows-advance encoded)

pub Grows-append_buffered : (encoded : EncodedEntry) → Grows world (append_buffered encoded)
unfolding append_buffered
Grows-append_buffered encoded = Grows-write_unflushed encoded

pub Grows-append : (encoded : EncodedEntry) → Grows world (append encoded)
unfolding append
Grows-append encoded =
    Grows-bind world (write_unflushed encoded) _ (Grows-write_unflushed encoded)
      (λ result. Grows-bind world flush _ Grows-flush (λ _. Grows-pure result))

pub Grows-sync : Grows world sync
unfolding sync
Grows-sync = Grows-bind world flush _ Grows-flush (λ _. Grows-syscall)

pub Grows-sync_handle : Grows world sync_handle
unfolding sync_handle
Grows-sync_handle = Grows-bind world flush _ Grows-flush (λ _. Grows-syscall)

pub create-Extends : (id : ℕ) (w : World) → Extends w (create id w).1
unfolding create
create-Extends id w =
    (Grows-bind (λ v. v) (create_data id >> data_len id) _
        (Grows-bind (λ v. v) (create_data id) _ (record { at = create_data-Extends id })
          (λ _. record { at = data_len-Extends id }))
        (λ offset.
          Grows-bind (λ v. v) syscall _ (record { at = syscall-Extends })
            (λ _. record { at = Extends-refl }))).at
      w
