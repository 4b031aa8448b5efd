-- ===== src/Files/Move.antt =====
-- The order of the attachments (frontend/src/files/useAttachmentUploads.ts, `moveAttachment`).
use ichat.Base.{ℕ, zero, suc, ◌≡◌, refl, ap, some, List, [], ◌∷◌, Text, arith}
use ichat.Files.Types.{DraftAttachment}
use ichat.Files.Uploads.{index_of_client, swap_next, up, down, move}

swap_next-swap_next : (i : ℕ) (s : List DraftAttachment) → swap_next i (swap_next i s) ≡ s
swap_next-swap_next zero [] = refl
swap_next-swap_next zero (a ∷ []) = refl
swap_next-swap_next zero (a ∷ b ∷ s) = refl
swap_next-swap_next (suc i) [] = refl
swap_next-swap_next (suc i) (a ∷ s) = ap (λ t. a ∷ t) (swap_next-swap_next i s)

index_of_client-swap_next :
    (client_id : Text) (i : ℕ) (s : List DraftAttachment)
    → index_of_client client_id s ≡ some (suc i)
    → index_of_client client_id (swap_next i s) ≡ some i
index_of_client-swap_next client_id zero [] h = cc
index_of_client-swap_next client_id zero (a ∷ []) h = ground arith
index_of_client-swap_next client_id zero (a ∷ b ∷ s) h = grind arith
index_of_client-swap_next client_id (suc i) [] h = cc
index_of_client-swap_next client_id (suc i) (a ∷ s) h =
    grind (arith, index_of_client-swap_next client_id i s)

-- An attachment that is not the first and is moved up stands one place further up, and moving it down
-- again gives the order there was.
pub move-move :
    (client_id : Text) (i : ℕ) (s : List DraftAttachment)
    → index_of_client client_id s ≡ some (suc i)
    → (index_of_client client_id (move client_id up s) ≡ some i)
      × (move client_id down (move client_id up s) ≡ s)
unfolding move
move-move client_id i s h =
    rw h (rw (index_of_client-swap_next client_id i s h) (refl, swap_next-swap_next i s))
