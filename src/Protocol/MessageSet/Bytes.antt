-- ===== src/Protocol/MessageSet/Bytes.antt =====
-- What a message set writes, and that the compressed form it keeps is the right one.
use pykafka.Prelude.{
  ℕ, pos, negsuc, ◌+◌, ◌≡◌, refl, sym, ◌∙◌, arith, List, [], ◌∷◌, append-nil, none, some, inl, inr,
  Option-cases, if◌then◌else◌, ◌==◌,
}
use pykafka.Result.{Result, Error, ok, err, struct_error, ◌>>=◌, Result-cases}
use pykafka.Struct.{int, int32, int64, pack}
use pykafka.Struct.Pack.{cat}
use pykafka.Writer.Writes.{Writes, Writes-put, Writes-then, Writes-for_each, Writes-resize, cat_all}
use pykafka.Prelude.{total}
use pykafka.Compression.{Codec}
use pykafka.Protocol.Message.{none_type, Message, message_length}
use pykafka.Protocol.Message.Bytes.{message_bytes, Writes-message}
use pykafka.Protocol.MessageSet.{
  MessageSet, entries_length, write_entry, write_entries, uncompressed_bytes, get_compressed,
  compress_once, entries, append_message,
}
use pykafka.Prelude.{◌≤◌}
use pykafka.Prelude.{◌≢◌}

-- Offset MessageSize Message, with the offset -1 that a producer sends.
abbrev pub entry_bytes : Message → Result (List ℕ)
entry_bytes m =
    cat (pack (int int64 (negsuc 0) ∷ int int32 (pos (message_length m)) ∷ [])) (message_bytes m)

abbrev pub entries_bytes : List Message → Result (List ℕ)
entries_bytes = cat_all entry_bytes

Writes-entry : (m : Message) → Writes (write_entry m) (12 + message_length m) (entry_bytes m)
unfolding write_entry
Writes-entry m = Writes-then (Writes-put _ 12 refl) (Writes-message m)

entries_total : (ms : List Message) → total (λ m. 12 + message_length m) ms ≡ entries_length ms
entries_total [] = refl
entries_total (m ∷ ms) = omega (arith, entries_total ms)

pub Writes-entries :
    (ms : List Message) → Writes (write_entries ms) (entries_length ms) (entries_bytes ms)
unfolding write_entries
Writes-entries ms = Writes-resize (entries_total ms) (Writes-for_each _ _ _ Writes-entry ms)

-- MessageSet.pack_into, on a set that is not compressed and a buffer of its length, writes each message in
-- the grammar's entry and nothing else, or raises `struct.error` where a part of that does not fit its
-- format.
pub uncompressed_bytes_lem : (ms : List Message) → uncompressed_bytes ms ≡ entries_bytes ms
unfolding uncompressed_bytes
uncompressed_bytes_lem ms =
    let start : entries_length ms + 0 ≡ entries_length ms = omega arith in
    let run = (Writes-entries ms).runs [] 0 in
    rw (← start, run)
      (elim (Result-cases (entries_bytes ms)) [
        | inl (bytes, p) ↦ rw (p, append-nil bytes)
        | inr (x, p) ↦ rw p
      ])

module _ (c : Codec) where
  -- What a set keeps is the compressed form of the messages that it holds now.
  pub record IsCoherent (s : MessageSet) : Type 0 where
    pub kept :
        (m : Message)
        → s.compressed ≡ some m
        → get_compressed c s.compression_type s.contents ≡ ok m

  -- The messages that are sent, from the messages of the set alone.
  unfoldable pub sent : ℕ → List Message → Result (List Message)
  sent compression_type ms =
      if compression_type == none_type
      then ok ms
      else (get_compressed c compression_type ms >>= λ m. ok (m ∷ []))

  compress_once-none :
      (s : MessageSet)
      → s.compressed ≡ none
      → compress_once c s ≡ get_compressed c s.compression_type s.contents
  unfolding compress_once
  compress_once-none s e = ground arith

  compress_once-some :
      (s : MessageSet) (m : Message) → s.compressed ≡ some m → compress_once c s ≡ ok m
  unfolding compress_once
  compress_once-some s m e = ground arith

  -- With a coherent set it makes no difference whether the compressed form was kept.
  compress_once-IsCoherent :
      (s : MessageSet)
      → IsCoherent s
      → compress_once c s ≡ get_compressed c s.compression_type s.contents
  compress_once-IsCoherent s h = elim (Option-cases s.compressed) [
    | inl e ↦ compress_once-none s e
    | inr (m, e) ↦ compress_once-some s m e ∙ sym (h.kept m e)
  ]

  -- What `entries` keeps, it returns again and keeps again.
  pub entries_again :
      (s s' : MessageSet) (ms : List Message)
      → entries c s ≡ ok (ms, s')
      → entries c s' ≡ ok (ms, s')
  unfolding entries compress_once
  entries_again s s' ms h = ground arith

  pub entries-sent :
      (s : MessageSet)
      → IsCoherent s
      → (entries c s >>= λ p. ok p.0) ≡ sent s.compression_type s.contents
  unfolding entries sent
  entries-sent s h =
      rw (compress_once-IsCoherent s h)
        (elim (Result-cases (get_compressed c s.compression_type s.contents)) [
          | inl (m, p) ↦ ground arith
          | inr (x, p) ↦ ground arith
        ])

  pub entries-IsCoherent :
      (s s' : MessageSet) (ms : List Message)
      → IsCoherent s
      → entries c s ≡ ok (ms, s')
      → IsCoherent s'
  unfolding entries
  entries-IsCoherent s s' ms h e = record {
    kept = λ m k. ground (arith, compress_once-IsCoherent s h, h.kept m);
  }

  pub append_message-IsCoherent : (m : Message) (s : MessageSet) → IsCoherent (append_message m s)
  unfolding append_message
  append_message-IsCoherent m s = record { kept = λ m' e. cc }

  uncompressed_fails :
      (ms : List Message) (x : Error) → uncompressed_bytes ms ≡ err x → x ≡ struct_error
  uncompressed_fails ms x h = (Writes-entries ms).fails x (sym (uncompressed_bytes_lem ms) ∙ h)

  compressed_fails :
      (compression_type : ℕ) (ms : List Message) (x : Error)
      → compression_type ≤ 2
      → compression_type ≢ 0
      → get_compressed c compression_type ms ≡ err x
      → x ≡ struct_error
  unfolding get_compressed
  compressed_fails compression_type ms x h nz e = ground (arith, uncompressed_fails ms x)

  -- Of the compression types that the protocol knows, sending fails with `struct.error` only.
  pub sent_fails :
      (compression_type : ℕ) (ms : List Message) (x : Error)
      → compression_type ≤ 2
      → sent compression_type ms ≡ err x
      → x ≡ struct_error
  unfolding sent
  sent_fails compression_type ms x h e = ground (arith, compressed_fails compression_type ms x)
