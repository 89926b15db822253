-- ===== src/Types/Laws.antt =====
-- The identifiers of an advisory, and what a key's scope lets it do (app/core/types.py).
use weedout.Base.{◌≡◌, ◌↔◌, ◌⊎◌, true, arith}
use weedout.Types.{KeyScope, manage, allows}

-- A scope covers a requirement exactly where it is that scope, or `manage`.
pub allows_iff :
    (scope needed : KeyScope) → (allows scope needed ≡ true) ↔ ((scope ≡ manage) ⊎ (scope ≡ needed))
unfolding allows
allows_iff scope needed = ground arith
