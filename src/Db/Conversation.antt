-- ===== src/Db/Conversation.antt =====
-- About makeConversationId of Database.h.
use improject.Base.{ℕ, ℤ, pos, ◌^◌, ◌<◌, ◌≡◌, ◌⊎◌, arith, refl, negsuc}
use improject.Db.Tables.{make_conversation_id}

-- The id does not depend on who sends and who receives.
pub make_conversation_id_comm : (a b : ℤ) → make_conversation_id a b ≡ make_conversation_id b a
unfolding make_conversation_id
make_conversation_id_comm (pos a) (pos b) = ground arith
make_conversation_id_comm (pos a) (negsuc b) = refl
make_conversation_id_comm (negsuc a) (pos b) = refl
make_conversation_id_comm (negsuc a) (negsuc b) = refl

-- Two pairs of positive `int` ids that have the same conversation id are the same two users.
pub make_conversation_id_injective :
    (a b x y : ℕ)
    → 0 < a
    → a < 2 ^ 31
    → 0 < b
    → b < 2 ^ 31
    → 0 < x
    → x < 2 ^ 31
    → 0 < y
    → y < 2 ^ 31
    → make_conversation_id (pos a) (pos b) ≡ make_conversation_id (pos x) (pos y)
    → ((a ≡ x) × (b ≡ y)) ⊎ ((a ≡ y) × (b ≡ x))
unfolding make_conversation_id
make_conversation_id_injective a b x y ha la hb lb hx lx hy ly e = ground arith

-- The id of two `int` ids fits an `int64_t`.
pub make_conversation_id-lt :
    (a b : ℕ) → a < 2 ^ 31 → b < 2 ^ 31 → make_conversation_id (pos a) (pos b) < 2 ^ 63
unfolding make_conversation_id
make_conversation_id-lt a b la lb = ground arith
