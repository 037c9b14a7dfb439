-- ===== src/Api/Laws.antt =====
-- Laws of `Run` and of the error manager of pkg/parser/api/parser/error.go.
use goctl.Api.Errors.{Problem, Run, returns, fails, panics, diverges, ◌>>=◌, add, error}
use goctl.Base.{◌≡◌, refl, List, [], ◌∷◌, ◌++◌, append-nil, ◌↔◌, arith}

pub bind_assoc {ℓ κ μ} :
    {A : Type ℓ} {B : Type κ} {C : Type μ} (m : Run A) (f : A → Run B) (g : B → Run C)
    → ((m >>= f) >>= g) ≡ (m >>= λ a. f a >>= g)
bind_assoc (returns a) f g = refl
bind_assoc (fails e) f g = refl
bind_assoc panics f g = refl
bind_assoc diverges f g = refl

pub bind-returns {ℓ} : {A : Type ℓ} (m : Run A) → (m >>= λ a. returns a) ≡ m
bind-returns (returns a) = refl
bind-returns (fails e) = refl
bind-returns panics = refl
bind-returns diverges = refl

-- What a manager reports is what is added to another.
pub add-error : (e ps : List Problem) → add e (error ps) ≡ returns (e ++ ps)
unfolding add error
add-error e [] = rw (append-nil e) refl
add-error e (p ∷ ps) = refl

pub error_iff : (ps : List Problem) → (error ps ≡ returns tt) ↔ (ps ≡ [])
unfolding error
error_iff [] = (λ _. refl, λ _. refl)
error_iff (p ∷ ps) = (λ h. ground arith, λ h. ground arith)

-- Inversion of a successful bind.
pub >>=-eq-returns {ℓ κ} :
    {A : Type ℓ} {B : Type κ} (m : Run A) (f : A → Run B) {b : B}
    → (m >>= f) ≡ returns b
    → (a : A) × (m ≡ returns a) × (f a ≡ returns b)
>>=-eq-returns (returns a) f h = (a, refl, h)
>>=-eq-returns (fails ps) f h = ground arith
>>=-eq-returns panics f h = ground arith
>>=-eq-returns diverges f h = ground arith

pub returns_cancel {ℓ} : {A : Type ℓ} (a b : A) → returns a ≡ returns b → a ≡ b
returns_cancel a b h = cc
