-- ===== src/Orchestrator/Startup/Keys.antt =====
-- The encryption key of the agent (repositories/config.repository.ts, database.repository.ts).
use yucca.Common.{
  ◌==◌, ◌≡◌, refl, ap, ◌∙◌, inl, inr, true, false, List, [], ◌∷◌, ◌++◌, arith, Bool-cases, String,
}
use yucca.Common.Monad.{Result, ok, err, Result-cases}
use yucca.Database.{Error, no_result, update_rows}
use yucca.Orchestrator.Startup.{
  Entry, number, Write, at_start, flag, imported, restored, Restored, write_one, write_all,
  onboarded_key, telemetry, skipped_onboarding_extra_config, ConfigurationKey, encryption_key,
  is_key, has_key, get_key, set_key, bootstrap_config, set_flag, import_encryption_key,
  restore_from, restore_config, confirm_key_onboarded, enable_telemetry, skip_extra_config, Flag,
}

-- the key of a table
abbrev pub master : List Entry → Result Error String
master entries = get_key encryption_key entries

abbrev pub or_drawn : String → Result Error String → Result Error String
or_drawn random (ok key) = ok key
or_drawn random (err e) = ok random

abbrev pub copied_key : Result Error (List Entry) → Result Error String
copied_key (ok rows) = master rows
copied_key (err e) = err no_result

abbrev pub drawn_after :
    Result Error (Unit {0}) → String → Result Error String → Result Error String
drawn_after (ok u) random key = or_drawn random key
drawn_after (err e) random key = key

abbrev pub after_restore :
    Result Error (Unit {0}) → Restored → String → Result Error String → Result Error String
after_restore (err e) r random key = key
after_restore (ok u) r random key = elim r.copied [
  | err e ↦ err no_result
  | ok rows ↦ drawn_after r.migrated random (master rows)
]

-- What a write makes of the key, of which there is at most one.
abbrev pub key_after : Write → Result Error String → Result Error String
key_after (at_start random) key = or_drawn random key
key_after (flag f) key = key
key_after (imported new) key = ok new
key_after (restored r random) key = after_restore r.attached r random key

abbrev pub keys_after : List Write → Result Error String → Result Error String
keys_after [] key = key
keys_after (w ∷ ws) key = keys_after ws (key_after w key)

master-update :
    (value : String) (entries : List Entry)
    → has_key encryption_key entries ≡ true
    → master (update_rows (is_key encryption_key) (λ e. record e { value = value }) entries)
      ≡ ok value
master-update value [] h = absurd (cc)
master-update value (e ∷ entries) h = ground (arith, master-update value entries)

master-append :
    (key : ConfigurationKey) (e : Entry) (entries : List Entry)
    → has_key encryption_key entries ≡ false
    → master (entries ++ e ∷ []) ≡ master (e ∷ [])
master-append key e [] h = refl
master-append key e (x ∷ entries) h = ground (arith, master-append key e entries)

master-none :
    (entries : List Entry) → has_key encryption_key entries ≡ false → master entries ≡ err no_result
master-none [] h = refl
master-none (e ∷ entries) h = ground (arith, master-none entries)

master-some :
    (entries : List Entry)
    → has_key encryption_key entries ≡ true
    → (key : String) × (master entries ≡ ok key)
master-some [] h = absurd (cc)
master-some (e ∷ entries) h = elim (Bool-cases (is_key encryption_key e)) [
  | inl own ↦ (e.value, ground (arith, own))
  | inr other ↦
      let (key, found) = master-some entries (ground (arith, h, other)) in
      (key, ground (arith, other, found))
]

master-import :
    (value : String) (entries : List Entry)
    → master (set_key encryption_key value entries) ≡ ok value
master-import value entries = elim (Bool-cases (has_key encryption_key entries)) [
  | inl old ↦ ground (arith, old, master-update value entries)
  | inr new ↦ ground (
    arith,
    new,
    master-append encryption_key (record { key = encryption_key; value = value }) entries,
  )
]

master-bootstrap :
    (random : String) (entries : List Entry)
    → master (bootstrap_config random entries) ≡ or_drawn random (master entries)
unfolding bootstrap_config
master-bootstrap random entries = elim (Bool-cases (has_key encryption_key entries)) [
  | inl old ↦ let (key, found) = master-some entries old in ground (arith, old, found)
  | inr new ↦ ground (arith, new, master-none entries new, master-import random entries)
]

master-update_other :
    (key : ConfigurationKey) (value : String) (entries : List Entry)
    → (number key == 0) ≡ false
    → master (update_rows (is_key key) (λ e. record e { value = value }) entries) ≡ master entries
master-update_other key value [] n = refl
master-update_other key value (e ∷ entries) n =
    ground (arith, n, master-update_other key value entries n)

master-append_other :
    (e : Entry) (entries : List Entry)
    → (number e.key == 0) ≡ false
    → master (entries ++ e ∷ []) ≡ master entries
master-append_other e [] n = ground (arith, n)
master-append_other e (x ∷ entries) n = ground (arith, n, master-append_other e entries n)

master-set_other :
    (key : ConfigurationKey) (value : String) (entries : List Entry)
    → (number key == 0) ≡ false
    → master (set_key key value entries) ≡ master entries
master-set_other key value entries n = elim (Bool-cases (has_key key entries)) [
  | inl known ↦ ground (arith, known, master-update_other key value entries n)
  | inr new ↦
      ground (arith, new, master-append_other (record { key = key; value = value }) entries n)
]

master-flag : (f : Flag) (entries : List Entry) → master (set_flag f entries) ≡ master entries
unfolding set_flag
master-flag confirm_key_onboarded entries = master-set_other onboarded_key "1" entries refl
master-flag enable_telemetry entries = master-set_other telemetry "full" entries refl
master-flag skip_extra_config entries =
    master-set_other skipped_onboarding_extra_config "1" entries refl

master-restore :
    (r : Restored) (random : String) (entries : List Entry)
    → master (restore_config r random entries).1
      ≡ after_restore r.attached r random (master entries)
unfolding restore_config restore_from
master-restore r random entries = elim (Result-cases r.attached) [
  | inr (e, bad) ↦ ground (arith, bad)
  | inl (u, attached) ↦ elim (Result-cases r.copied) [
    | inr (e, bad) ↦ ground (arith, attached, bad)
    | inl (rows, copied) ↦ elim (Result-cases r.migrated) [
      | inr (e, bad) ↦ ground (arith, attached, copied, bad)
      | inl (v, migrated) ↦ ground (arith, attached, copied, migrated, master-bootstrap random rows)
    ]
  ]
]

master-write_one :
    (w : Write) (entries : List Entry) → master (write_one w entries) ≡ key_after w (master entries)
unfolding write_one import_encryption_key
master-write_one (at_start random) entries = master-bootstrap random entries
master-write_one (flag f) entries = master-flag f entries
master-write_one (imported new) entries = master-import new entries
master-write_one (restored r random) entries = master-restore r random entries

-- After any starts, flag requests, imports of a key and restores from a point, the agent has the key that the
-- last of them leaves: a start draws one only if there is none, a flag leaves it, an import replaces it, and
-- a restore whose copy succeeds brings that of the snapshot, or draws one if the snapshot has none and the
-- migrations succeed. A restore that fails before it empties the table leaves the key, and one whose copy of
-- the table fails loses it.
pub write_all-key :
    (ws : List Write) (entries : List Entry)
    → get_key encryption_key (write_all ws entries) ≡ keys_after ws (get_key encryption_key entries)
unfolding write_all
write_all-key [] entries = refl
write_all-key (w ∷ ws) entries =
    write_all-key ws (write_one w entries) ∙ ap (λ k. keys_after ws k) (master-write_one w entries)
