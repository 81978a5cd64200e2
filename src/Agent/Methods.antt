-- ===== src/Agent/Methods.antt =====
-- enum http_method of include/http.h: what a mask that serves a request says of its method.
use vagent.Prelude.{ℕ, ◌≡◌, ◌⊎◌, inl, inr, refl, Bool, true, false, Str, ◌==◌, if◌then◌else◌}
use vagent.Http.{has_method, parse_method, m_get, m_put, m_delete}

-- The values of enum http_method.
pub data Method : ℕ → Type 0 where
  unknown : Method 0
  get : Method 1
  post : Method 2
  put : Method 4
  delete : Method 8
  options : Method 16

Method-if : (b : Bool) {m n : ℕ} → Method m → Method n → Method (if b then m else n)
Method-if true p q = p
Method-if false p q = q

pub parse_method-Method : (s : Str) → Method (parse_method s)
unfolding parse_method
parse_method-Method s = Method-if _ get (
    Method-if _ post
      (Method-if _ put (Method-if _ delete (Method-if _ options (Method-if _ get unknown)))))

pub only_get : {m : ℕ} → Method m → has_method m_get m ≡ true → (m == m_get) ≡ true
only_get get h = refl
only_get unknown h = cc
only_get post h = cc
only_get put h = cc
only_get delete h = cc
only_get options h = cc

pub only_put : {m : ℕ} → Method m → has_method m_put m ≡ true → (m == m_put) ≡ true
only_put put h = refl
only_put unknown h = cc
only_put post h = cc
only_put get h = cc
only_put delete h = cc
only_put options h = cc

pub only_delete : {m : ℕ} → Method m → has_method m_delete m ≡ true → (m == m_delete) ≡ true
only_delete delete h = refl
only_delete unknown h = cc
only_delete post h = cc
only_delete get h = cc
only_delete put h = cc
only_delete options h = cc

pub get_or_delete : {m : ℕ} → Method m → has_method 9 m ≡ true → (m ≡ m_get) ⊎ (m ≡ m_delete)
get_or_delete get h = inl refl
get_or_delete delete h = inr refl
get_or_delete unknown h = cc
get_or_delete post h = cc
get_or_delete put h = cc
get_or_delete options h = cc
