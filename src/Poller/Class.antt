-- ===== src/Poller/Class.antt =====
-- src/Channel.cpp, src/Poller.h: the virtual functions of a poller, and a channel's calls of them.
use liby_cpp.Base.{ℕ, Bool, none, Run, ok, ◌>>=◌, ◌>>◌, assert}
use liby_cpp.Poller.{Poller, put, deref}

-- `addChanel`, `updateChanel` and `removeChanel` of a class of pollers.
pub record Class {ℓ} (P : Type ℓ) : Type ℓ where
  pub add_chanel : ℕ → Poller P → Run (Poller P)
  pub update_chanel : ℕ → Bool → Bool → Poller P → Run (Poller P)
  pub remove_chanel : ℕ → Poller P → Run (Poller P)

module _ {ℓ} {P : Type ℓ} (class : Class P) where
  -- `addChannel()`
  unfoldable pub add_channel : ℕ → Poller P → Run (Poller P)
  add_channel p w = do c ← deref w p; assert c.poller_; class.add_chanel p w

  -- `updateChannel()`
  unfoldable pub update_channel : ℕ → Poller P → Run (Poller P)
  update_channel p w = do
    c ← deref w p
    assert c.poller_
    class.update_chanel p c.readable_ c.writable_ w

  -- `removeChannel()`
  unfoldable pub remove_channel : ℕ → Poller P → Run (Poller P)
  remove_channel p w = do c ← deref w p; assert c.poller_; class.remove_chanel p w

  -- `~Channel()`, and the object is gone.
  unfoldable pub delete_channel : ℕ → Poller P → Run (Poller P)
  delete_channel p w = do
    w' ← remove_channel p w
    ok (record w' { objects = put w'.objects p none })
