-- ===== src/Http/Singleton.antt =====
-- Singleton<T>::GetInstance (beast/http_server/include/http_server/singleton.h): the static
-- `instance_` and the once_flag of `GetInstance`.
use cpp_network_programming.Base.{◌≡◌, refl, Bool, true, false, Option, none, some, List, [], ◌∷◌}

record Singleton {ℓ} (A : Type ℓ) : Type ℓ where
  pub called : Bool
  pub instance_ptr : Option A

module _ {ℓ} {A : Type ℓ} where
  no_instance : Singleton A
  no_instance = record { called = false; instance_ptr = none }

  -- `std::call_once(s_flag, [&] { instance_ = ... new T ...; })`; `made` is what `new T` gives.
  call_once : Bool → A → Singleton A → Singleton A
  call_once true made s = s
  call_once false made s = record { called = true; instance_ptr = some made }

  get_instance : A → Singleton A → Singleton A × Option A
  unfolding call_once
  get_instance made s = let s' = call_once s.called made s in (s', s'.instance_ptr)

  -- The results of a number of calls, each with what `new T` would give there.
  get_all : List A → Singleton A → List (Option A)
  get_all [] s = []
  get_all (made ∷ more) s = (get_instance made s).1 ∷ get_all more (get_instance made s).0

  same_results : A → List A → List (Option A)
  same_results first [] = []
  same_results first (made ∷ more) = some first ∷ same_results first more

  get_all_called :
      (first : A) (more : List A)
      → get_all more (record { called = true; instance_ptr = some first }) ≡ same_results first more
  unfolding get_all get_instance same_results
  get_all_called first [] = refl
  get_all_called first (made ∷ more) = λ i. some first ∷ get_all_called first more i

  -- The first call makes the instance, and every call returns that one.
  get_all_same :
      (first : A) (more : List A)
      → get_all (first ∷ more) no_instance ≡ same_results first (first ∷ more)
  unfolding get_all get_instance no_instance same_results
  get_all_same first more = λ i. some first ∷ get_all_called first more i
