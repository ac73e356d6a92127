-- ===== src/Source/Directory/NoLeak.antt =====
-- Which roots are open after `openDirectory`.
use laya_go.Prelude.{◌≡◌, ◌⊎◌, false, some, List, [], ◌++◌, map}
use laya_go.Errors.{Error, ok, err}
use laya_go.Source.{Root, backwards}
use laya_go.Source.Handle.{Handle}
use laya_go.Source.Directory.{Turn}

-- With some roots open before: it succeeds with an open handle on these and on those that it opened, and
-- closed none; or it fails and has closed all of them, the last one first.
abbrev pub Keeps : List Root → Turn → Type 0
Keeps before t =
    ((h : Handle) × (t.outcome ≡ ok h)
      × (t.closed ≡ [])
      × (h.roots ≡ map some (before ++ t.opened))
      × (h.closed ≡ false))
    ⊎ ((e : Error) × (t.outcome ≡ err e) × (t.closed ≡ backwards (map some (before ++ t.opened))))

abbrev pub NoLeak : Turn → Type 0
NoLeak t = Keeps [] t
