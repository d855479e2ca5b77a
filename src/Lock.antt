-- ===== src/Lock.antt =====
-- The end of the lock on a volume's metadata: `GB_METAUNLOCK` (utils/utils.h). Its call of glfs_posix_lock is
-- an argument: none if the lock is released, and else strerror(errno).
use gluster_block.Prelude.{Option, none, some, ◌++◌, ◌≡◌, refl, ℤ, minus_one}
use gluster_block.Text.{Text, codes}

-- What GB_METAUNLOCK does to the error code.
abbrev pub unlock_code : Option Text → ℤ → ℤ
unlock_code none k = k
unlock_code (some e) k = minus_one

-- A refusal with -1 stays one.
pub unlock-minus_one : (unlock : Option Text) → unlock_code unlock minus_one ≡ minus_one
unlock-minus_one none = refl
unlock-minus_one (some e) = refl

-- And to the message.
abbrev pub unlock_msg : Option Text → (volume : Text) → Option Text → Option Text
unlock_msg none volume msg = msg
unlock_msg (some e) volume none =
    some (codes "Not able to acquire lock on " ++ (volume ++ (codes "[" ++ (e ++ codes "]"))))
unlock_msg (some e) volume (some m) = some m
