-- ===== src/Effects.antt =====
-- The effects of the services: what is called outside the process, in which order, and how a call
-- ends. A method of a service is an action on the history of calls; the answers are given by the
-- environment (Effects/Prisma and the arguments of the services), which sees the whole history.
pub mod Data
pub mod Calls
pub mod Monad
pub mod Added
pub mod Prisma
