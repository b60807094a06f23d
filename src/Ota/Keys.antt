-- ===== src/Ota/Keys.antt =====
-- sherry/hash.h: the Redis keys of `OTAHash`.
use ota_new.Common.{
  ℕ, ◌≡◌, ◌≢◌, refl, sym, ap, [], ◌∷◌, ◌++◌, arith, Text, codes, decimal, decimal-inj,
  decimal-Without, Without, append-inj_at, drop, subst, inl,
}

abbrev prefix : Text
prefix = codes "ota:device:"

unfoldable pub get_device_group_hash : Text → ℕ → Text
get_device_group_hash task group_id = prefix ++ task ++ b':' ∷ decimal group_id

unfoldable pub get_device_id_hash : Text → ℕ → ℕ → Text
get_device_id_hash task group_id device_id =
    prefix ++ (task ++ (b':' ∷ (decimal group_id ++ (b':' ∷ decimal device_id))))

-- `now` is `GetCurrentUS`.
unfoldable pub get_device_group_id_timestamp_hash : Text → ℕ → ℕ → ℕ → Text
get_device_group_id_timestamp_hash task group_id device_id now =
    prefix
    ++ (task ++ (b':' ∷ (decimal group_id ++ (b':' ∷ (decimal device_id ++ (b':' ∷ decimal now))))))

unfoldable pub get_device_group_mudule_hash : Text → ℕ → Text → Text
get_device_group_mudule_hash task group_id name =
    prefix ++ (task ++ (b':' ∷ (decimal group_id ++ (b':' ∷ name))))

unfoldable pub get_device_mudule_hash : Text → ℕ → ℕ → Text → Text
get_device_mudule_hash task group_id device_id name =
    prefix ++ (task ++ (b':' ∷ (decimal group_id ++ (b':' ∷ (decimal device_id ++ (b':' ∷ name))))))

unfoldable pub get_device_mudule_action_hash : Text → ℕ → ℕ → Text → Text
get_device_mudule_action_hash task group_id device_id action =
    prefix
    ++ (task ++ (b':' ∷ (decimal group_id ++ (b':' ∷ (decimal device_id ++ (b':' ∷ action))))))

unfoldable pub get_device_message_queue_hash : Text → ℕ → Text
get_device_message_queue_hash task group_id =
    prefix ++ (task ++ (b':' ∷ (decimal group_id ++ (b':' ∷ codes "message"))))

unfoldable pub get_message_queue_hash : Text
get_message_queue_hash = prefix ++ codes "message"

-- The key of a task, a device type and a name, for tasks without a colon, tells all three: two
-- requests have the same key only if they agree in each of them.
pub get_device_group_mudule_hash-inj :
    (task other : Text) (g h : ℕ) (name alias : Text)
    → Without b':' task
    → Without b':' other
    → get_device_group_mudule_hash task g name ≡ get_device_group_mudule_hash other h alias
    → (task ≡ other) × (g ≡ h) × (name ≡ alias)
unfolding get_device_group_mudule_hash
get_device_group_mudule_hash-inj task other g h name alias wt wo e =
    let (same_task, e') = append-inj_at b':' task other _ _ wt wo (ap (drop 11) e) in
    let (same_number, same_name) =
      append-inj_at b':' (decimal g) (decimal h) name alias
        (decimal-Without b':' g (inl (omega arith))) (decimal-Without b':' h (inl (omega arith)))
        e' in
    (same_task, decimal-inj g h same_number, same_name)

not-Without : (c : ℕ) (a r : Text) → ¬ Without c (a ++ (c ∷ r))
not-Without c [] r (ne, h) = ne refl
not-Without c (x ∷ xs) r (ne, h) = not-Without c xs r h

message_plain : Without b':' (codes "message")
message_plain = (
  omega arith,
  (omega arith, (omega arith, (omega arith, (omega arith, (omega arith, (omega arith, tt)))))),
)

-- The key of the message queue is no task's key.
pub get_message_queue_hash-apart :
    (task : Text) (g : ℕ) (name : Text)
    → Without b':' task
    → get_device_group_mudule_hash task g name ≢ get_message_queue_hash
unfolding get_device_group_mudule_hash get_message_queue_hash
get_message_queue_hash-apart task g name w e =
    not-Without b':' task _ (subst (Without b':') (sym (ap (drop 11) e)) message_plain)
