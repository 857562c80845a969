-- ===== src/Poller/Poll/Table.antt =====
-- src/PollerPoll.cpp, src/Channel.cpp: what a channel's calls do to the entries and to the table.
use liby_cpp.Base.{
  ℕ, zero, suc, ◌+◌, ◌-◌, ◌*◌, ◌≤◌, ◌<◌, ◌≡◌, refl, ap, sym, ◌∙◌, ◌⊎◌, inl, inr, Bool-cases, [],
  ◌∷◌, ◌++◌, none, some, Option-cases, get_elem?, get_elem?-ge, set, length, length-set,
  length-replicate, length-append, replicate, leb, leb-lt, leb→le, lt→ltb, if◌then◌else◌, ℤ, pos,
  negsuc, arith, Safe, safe, Safe-bind, Safe-assert,
}
use liby_cpp.Poller.{Channel, Poller, put, set_channel}
use liby_cpp.Poller.Class.{add_channel, remove_channel, delete_channel}
use liby_cpp.Poller.Safety
use liby_cpp.Poller.Poll.{
  PollFd, PollFds, Revents, blank_entry, grow, add_chanel, remove_chanel, poll_class,
}
use liby_cpp.Poller.Poll.Safety.{Polled}

get_elem?-set :
    (fds : PollFds) (i j : ℕ) (v entry : PollFd)
    → get_elem? (set fds i v) j ≡ some entry
    → (v ≡ entry) ⊎ (get_elem? fds j ≡ some entry)
get_elem?-set [] i j v entry e = inr e
get_elem?-set (f ∷ fds) zero zero v entry e = inl cc
get_elem?-set (f ∷ fds) zero (suc j) v entry e = inr e
get_elem?-set (f ∷ fds) (suc i) zero v entry e = inr e
get_elem?-set (f ∷ fds) (suc i) (suc j) v entry e = get_elem?-set fds i j v entry e

-- An entry of a longer list is one of before or blank.
get_elem?-blank :
    (n i : ℕ) (entry : PollFd)
    → get_elem? (replicate n blank_entry) i ≡ some entry
    → blank_entry ≡ entry
get_elem?-blank zero i entry e = absurd cc
get_elem?-blank (suc n) zero entry e = cc
get_elem?-blank (suc n) (suc i) entry e = get_elem?-blank n i entry e

get_elem?-longer :
    (fds : PollFds) (n i : ℕ) (entry : PollFd)
    → get_elem? (fds ++ replicate n blank_entry) i ≡ some entry
    → (blank_entry ≡ entry) ⊎ (get_elem? fds i ≡ some entry)
get_elem?-longer [] n i entry e = inl (get_elem?-blank n i entry e)
get_elem?-longer (f ∷ fds) n zero entry e = inr e
get_elem?-longer (f ∷ fds) n (suc i) entry e = get_elem?-longer fds n i entry e

-- The descriptors of the entries are below `size`.
abbrev Below : ℕ → PollFds → Type 0
Below size fds =
    (i n : ℕ) (entry : PollFd) → get_elem? fds i ≡ some entry → entry.fd ≡ pos n → n < size

abbrev fd_of : ℕ → ℤ → ℕ
fd_of default (pos n) = n
fd_of default (negsuc n) = default

pub same_fd : (a b : PollFd) (n m : ℕ) → a ≡ b → a.fd ≡ pos n → b.fd ≡ pos m → n ≡ m
same_fd a b n m e p q = ap (fd_of 0) (sym p ∙ ap (λ (x : PollFd). x.fd) e ∙ q)

Below-set :
    (size : ℕ) (fds : PollFds) (i : ℕ) (v : PollFd)
    → Below size fds
    → ((n : ℕ) → v.fd ≡ pos n → n < size)
    → Below size (set fds i v)
Below-set size fds i v below fits j n entry e same = elim (get_elem?-set fds i j v entry e) [
  | inl here ↦ fits n (ap (λ (x : PollFd). x.fd) here ∙ same)
  | inr old ↦ below j n entry old same
]

Below-grow : (size k : ℕ) (fds : PollFds) → Below size fds → 0 < size → Below size (grow k fds)
Below-grow size k fds below some_place i n entry e same =
    elim (get_elem?-longer fds (k - length fds) i entry e) [
      | inl blank ↦ omega (arith, same_fd blank_entry entry 0 n blank refl same)
      | inr old ↦ below i n entry old same
    ]

length-grow : (k : ℕ) (fds : PollFds) → length fds ≤ k → length (grow k fds) ≡ k
length-grow k fds h = omega (
  arith,
  length-append fds (replicate (k - length fds) blank_entry),
  length-replicate (k - length fds) blank_entry,
)

-- The list of `addChanel` is long enough for the new entry.
grown : ℕ → PollFds → PollFds
grown fd fds = if leb (length fds) fd then grow (fd * 2 + 1) fds else fds

record Longer (size fd : ℕ) (fds longer : PollFds) : Type 0 where
  below : Below size longer
  at_least : length fds ≤ length longer
  room : fd < length longer

grown-Longer :
    (size fd : ℕ) (fds : PollFds) → Below size fds → fd < size → Longer size fd fds (grown fd fds)
unfolding grown
grown-Longer size fd fds below fits = elim (Bool-cases (leb (length fds) fd)) [
  | inl short ↦
      let k = fd * 2 + 1 in
      let exact = length-grow k fds (omega (arith, leb→le (length fds) fd short)) in
      rw short (record {
        below = Below-grow size k fds below (omega arith);
        at_least = omega (arith, exact, leb→le (length fds) fd short);
        room = omega (arith, exact);
      })
  | inr long ↦
      rw long (record { below = below; at_least = omega arith; room = leb-lt (length fds) fd long })
]

module _ (size : ℕ) (garbage : Revents) (w : Poller PollFds) (s : Polled size w) (p : ℕ)
    (c : Channel) (alive : w.objects p ≡ some c) where
  added :
      (fd : ℕ) (entry : PollFd) (fds : PollFds)
      → c.fd_ ≡ pos fd
      → entry.fd ≡ pos fd
      → fd < size
      → Longer size fd w.own fds
      → Polled size (record w { own = set fds fd entry; channels_ = put w.channels_ fd (some p) })
  added fd entry fds fd_c fd_entry fits l = record {
    places = s.places;
    inside =
        Below-set size fds fd entry l.below
          λ n same. omega (arith, fits, same_fd entry entry n fd refl same fd_entry);
    inside_place = λ f q h. elim (Safety.put-inv w.channels_ fd f (some p) (some q) h) [
      | inl (here, e) ↦ omega (arith, here, fits)
      | inr (apart, e) ↦ s.inside_place f q e
    ];
    alive = Safety.LiveTable-put w.channels_ w.objects p fd c s.alive alive fd_c;
    entered = λ f q h. elim (Safety.put-inv w.channels_ fd f (some p) (some q) h) [
      | inl (here, e) ↦ omega (arith, here, l.room, length-set fds fd entry)
      | inr (apart, e) ↦ omega (arith, s.entered f q e, l.at_least, length-set fds fd entry)
    ];
  }

  -- `addChannel` of a channel that is alive keeps the entries within the table, or an assertion fails,
  -- if its descriptor is one of the table.
  pub add_channel-Polled :
      ((fd : ℕ) → c.fd_ ≡ pos fd → fd < size)
      → Safe (Polled size) (add_channel (poll_class garbage) p w)
  unfolding add_channel poll_class add_chanel set_channel grown
  add_channel-Polled fits = rw alive (
      Safe-bind (Safe-assert c.poller_) λ _ _. Safety.checked_fd-Safe c.fd_ λ fd e.
        rw (lt→ltb fd w.open_max (omega (arith, s.places, fits fd e))) (
          safe (
            added fd _ (grown fd w.own) e refl (fits fd e)
              (grown-Longer size fd w.own s.inside (fits fd e)))))

  -- `~Channel` of a channel that is alive and in its place keeps them too, and no place is left with
  -- the address of the channel.
  pub delete_channel-Polled :
      (fd : ℕ)
      → c.fd_ ≡ pos fd
      → w.channels_ fd ≡ some p
      → Safe (Polled size) (delete_channel (poll_class garbage) p w)
  unfolding delete_channel remove_channel poll_class remove_chanel set_channel
  delete_channel-Polled fd e here = elim (Option-cases (get_elem? w.own fd)) [
    | inl lost ↦ absurd (omega (arith, s.entered fd p here, get_elem?-ge w.own fd lost))
    | inr (entry, found) ↦
        let fits = s.inside_place fd p here in
        rw (alive, e)
          (Safe-bind
            (Safe-bind (Safe-assert c.poller_) λ _ _.
              rw (lt→ltb fd w.open_max (omega (arith, s.places, fits)), found)
                (safe (
                  safe (record {
                    places = s.places;
                    inside = Below-set size w.own fd _ s.inside λ n same. absurd cc;
                    inside_place = λ f q h. elim (Safety.put-inv w.channels_ fd f none (some q) h) [
                      | inl (same, e') ↦ absurd cc
                      | inr (apart, e') ↦ s.inside_place f q e'
                    ];
                    alive = Safety.LiveTable-delete w.channels_ w.objects p fd c s.alive alive e;
                    entered = λ f q h. elim (Safety.put-inv w.channels_ fd f none (some q) h) [
                      | inl (same, e') ↦ absurd cc
                      | inr (apart, e') ↦ omega (
                        arith,
                        s.entered f q e',
                        length-set w.own fd (record entry { fd = negsuc 0 }),
                      )
                    ];
                  }))))
            λ w' s'. s')
  ]
