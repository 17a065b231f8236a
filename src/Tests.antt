-- ===== src/Tests.antt =====
-- Runs of the definitions on small inputs, and the theorems at such inputs.
mod Ascii
mod Requests
mod Responses
mod Messages
mod States
mod Seeds
mod SeedChoice
mod Links
mod Tree
mod Selection
mod Bitmap
mod Mutation
